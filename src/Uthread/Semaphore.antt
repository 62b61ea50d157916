-- ===== src/Uthread/Semaphore.antt =====
-- uthread.c, HEAD's side: binary semaphores, each with a ring of the threads that wait.
pub mod Waiters
use mathlib.Core.Option
use os_ass.Common.{
  ℕ, zero, suc, ◌+◌, ◌-◌, ◌*◌, ◌/◌, ◌%◌, ◌^◌, ◌≤◌, ◌<◌, min, ◌≡◌, refl, sym, ap, ◌∙◌, ◌≢◌, ◌↔◌, ◌⊎◌,
  inl, inr, Bool, true, false, not, ◌&&◌, ◌||◌, Option, none, some, List, [], ◌∷◌, ◌++◌, map, arith,
  ltb, leb, ◌==◌, if◌then◌else◌, Bool-cases, Option-cases, ltb→lt, lt→ltb, ==_iff, ==_refl, length,
  get_elem?, get_or, set, replicate, length-append, length-map, length-set, length-replicate,
  get_elem?-set, get_or-set, get_elem?-lt-length, modify, length-modify, get_elem?-modify,
  get_elem?-append, modify-append, find_from, find_index, IsFirst, find_index-IsFirst,
  find_index-none, Outcome, done, panic, ◌>>=◌, done_inj, some_inj,
}
use os_ass.Common.Int.{ℤ, pos}
use os_ass.Uthread.{
  Threads, max_uthreads, uthread_quanta, set_alarm, modify_thread, set_state, t_runnable,
  uthread_sleep,
}

-- `struct bsem`; `list` holds pointers to threads, here their indices, or null.
pub record Bsem : Type 0 where
  pub s : ℕ
  pub insert : ℕ
  pub to_out : ℕ
  pub size : ℕ
  pub num_of_wating_threads : ℕ
  pub list : List (Option ℕ)

-- What `bsem_alloc` puts into a new semaphore, whose list is what `malloc` returns.
abbrev pub new_bsem : List (Option ℕ) → Bsem
new_bsem list = record {
  s = 1;
  insert = 0;
  to_out = 0;
  size = max_uthreads;
  num_of_wating_threads = 0;
  list = list;
}

-- The current thread notes itself as the last one that waits.
abbrev pub enqueue : (me : ℕ) → Bsem → Bsem
enqueue me b = record b {
  list = set b.list b.insert (some me);
  insert = (b.insert + 1) % max_uthreads;
  num_of_wating_threads = b.num_of_wating_threads + 1;
}

unfoldable pub bsem_down : (now : ℕ) → Bsem → Threads → Bsem × Threads
bsem_down now b t =
    if b.s == 0
    then (enqueue t.current b, (uthread_sleep now (pos 0) (set_alarm 0 t)).1)
    else (record b { s = 0 }, set_alarm uthread_quanta (set_alarm 0 t))

abbrev pub dequeue : Bsem → Bsem
dequeue b = record b {
  list = set b.list b.to_out none;
  to_out = (b.to_out + 1) % max_uthreads;
  num_of_wating_threads = b.num_of_wating_threads - 1;
}

-- `none` where a null pointer is followed. The first branch returns with the alarm off.
unfoldable pub bsem_up : Bsem → Threads → Option (Bsem × Threads)
bsem_up b t =
    if b.num_of_wating_threads == 0 && b.s == 1
    then some (b, set_alarm 0 t)
    else if b.num_of_wating_threads == 0 && b.s == 0
    then some (record b { s = 1 }, set_alarm uthread_quanta (set_alarm 0 t))
    else Option.map
        (λ w. (
          dequeue b,
          set_alarm uthread_quanta (modify_thread w (set_state t_runnable) (set_alarm 0 t)),
        ))
        (get_or b.list b.to_out none)
