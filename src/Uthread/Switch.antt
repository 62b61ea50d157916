-- ===== src/Uthread/Switch.antt =====
-- A switch of threads: `uthread_schedule` runs as the handler of SIGALRM, and `sigreturn` takes the
-- process on in the frame that it has put on the stack.
use mathlib.Core.Path.{subst}
use os_ass.Common.{get_elem?-modify_self, modify_inv}
use os_ass.Common.Memory.{Memory, load_word}
use os_ass.TrapFrame
use os_ass.TrapFrame.{TrapFrame, IsWords, store_frame, load_frame, load_frame-store_frame}
use os_ass.Proc.{Proc}
use os_ass.Signal.{tf_flag, sigreturn, syscall_sigreturn}
use os_ass.Common.{
  ℕ, zero, suc, ◌+◌, ◌-◌, ◌*◌, ◌%◌, ◌^◌, ◌≤◌, ◌<◌, ◌≡◌, refl, sym, ap, ◌∙◌, inl, inr, true, false,
  some, List, arith, ◌==◌, length, get_elem?, get_elem?-lt-length, modify, length-modify,
}
use os_ass.Uthread.{
  t_running, t_runnable, is_t, Thread, Threads, uthread_quanta, find_trapframe, save, set_alarm,
  set_state, step_index, uthread_schedule,
}
use os_ass.Uthread.Turn.{Found, search-Chosen}
use os_ass.Uthread.Chosen.{Chosen}

-- If the first marked word from the stack pointer up is `n` words away, with room for a frame below
-- it, the search ends after `n + 1` rounds with the address of that frame.
pub find_trapframe-first :
    (n r : ℕ) (m : Memory) (sp : ℕ)
    → n < r
    → sp + 4 * n < 2 ^ 32
    → TrapFrame.size ≤ sp + 4 * n
    → ((k : ℕ) → k < n → (load_word m (sp + 4 * k) == tf_flag) ≡ false)
    → load_word m (sp + 4 * n) ≡ tf_flag
    → find_trapframe r m sp ≡ some (sp + 4 * n - TrapFrame.size)
unfolding find_trapframe
find_trapframe-first n zero m sp lt fits big earlier here = absurd (omega arith)
find_trapframe-first zero (suc r) m sp lt fits big earlier here =
    let e : sp + 4 * 0 ≡ sp = omega arith in
    let at : load_word m sp ≡ tf_flag = ap (load_word m) (sym e) ∙ here in
    rw at (ap some (omega arith))
find_trapframe-first (suc n) (suc r) m sp lt fits big earlier here =
    rw (not_here, next)
      (find_trapframe-first n r m (sp + 4) (omega arith) (omega arith) (omega arith)
          (λ k p.
            subst (λ a. (load_word m a == tf_flag) ≡ false) (shift k)
              (earlier (suc k) (omega arith)))
          (ap (load_word m) (sym (shift n)) ∙ here)
        ∙ ap (λ a. some (a - TrapFrame.size)) (sym (shift n)))
  where
    shift : (k : ℕ) → sp + 4 * suc k ≡ sp + 4 + 4 * k
    shift k = omega arith

    next : (sp + 4) % 2 ^ 32 ≡ sp + 4
    next = omega arith

    not_here : (load_word m sp == tf_flag) ≡ false
    not_here =
        let e : sp + 4 * 0 ≡ sp = omega arith in
        subst (λ a. (load_word m a == tf_flag) ≡ false) e (earlier 0 (omega arith))

-- The table once the running thread's frame has been saved.
abbrev pub saved : Memory → ℕ → Threads → List Thread
saved m a s = modify s.table s.current (save (load_frame m a))

-- The process goes on as thread `k`, the first that can run after the one that ran.
pub record Switched (uptime : ℕ → ℕ) (m : Memory) (a : ℕ) (s : Threads) (q : Proc) (m' : Memory)
    (s' : Threads) : Type 0 where
  pub table : List Thread
  pub turn :
      Chosen uptime (saved m a s) (step_index (length (saved m a s)) s.current) s'.current table
  pub now : Thread
  pub current : get_elem? s'.table s'.current ≡ some now
  pub running : now.state ≡ t_running
  pub resumed : (syscall_sigreturn m' q).tf ≡ record (turn.thread.tf) { eax = 0 }
  pub alarmed : s'.alarm ≡ uthread_quanta

module _ (rounds : ℕ) (uptime : ℕ → ℕ) (sp a : ℕ) (m : Memory) (s : Threads) (c : Thread)
    (q : Proc) where
  -- The words of a saved frame.
  saved-IsWords :
      (k : ℕ) (u : Thread)
      → IsWords (load_frame m a)
      → ((j : ℕ) (v : Thread) → get_elem? s.table j ≡ some v → IsWords v.tf)
      → get_elem? (saved m a s) k ≡ some u
      → IsWords u.tf
  saved-IsWords k u w all at = elim (modify_inv s.table s.current k (save (load_frame m a)) u at) [
    | inl (_, (v, _, is)) ↦ subst IsWords (sym (ap (λ (x : Thread). x.tf) is)) w
    | inr (_, was) ↦ all k u was
  ]

  -- The running thread is interrupted with its frame at `a`, where the search for the mark finds
  -- it. Then `uthread_schedule` ends, within one round of the table, and gives the turn to the
  -- first thread after it that is runnable, or that sleeps until a time that `uptime` has come to when
  -- the search is there, itself the last; and after the system call `sigreturn` of its handler the
  -- process goes on in the frame that was saved for that thread, but for eax, which is 0, with the
  -- alarm set for the next turn.
  pub uthread_schedule-sigreturn :
      find_trapframe rounds m sp ≡ some a
      → get_elem? s.table s.current ≡ some c
      → c.state ≡ t_running
      → length s.table ≤ rounds
      → IsWords (load_frame m a)
      → ((j : ℕ) (v : Thread) → get_elem? s.table j ≡ some v → IsWords v.tf)
      → (q.tf.ebp + 8) % 2 ^ 32 ≡ a
      → (m' : Memory) × (s' : Threads) × (uthread_schedule rounds uptime sp m s ≡ some (m', s'))
        × Switched uptime m a s q m' s'
  unfolding uthread_schedule syscall_sigreturn sigreturn is_t
  uthread_schedule-sigreturn at here run enough w all frame = finish (
      search-Chosen rounds uptime c.tid (step_index (length s.table) s.current) s.current
        (saved m a s) s.freed (save (load_frame m a) c)
        (omega (arith, length-modify s.table s.current (save (load_frame m a)))) inside
        (get_elem?-modify_self s.table s.current (save (load_frame m a)) c here) able)
    where
      able : is_t (save (load_frame m a) c).state t_runnable ≡ true
      able = rw run refl

      same_length : length (saved m a s) ≡ length s.table
      same_length = length-modify s.table s.current (save (load_frame m a))

      inside : step_index (length s.table) s.current < length (saved m a s)
      inside = ground (arith, same_length, get_elem?-lt-length s.table s.current c here)

      finish :
          Found rounds uptime c.tid (step_index (length s.table) s.current) (saved m a s) s.freed
          → (m' : Memory) × (s' : Threads) × (uthread_schedule rounds uptime sp m s ≡ some (m', s'))
            × Switched uptime m a s q m' s'
      finish (k, ts', freed', e, ch) = (
        store_frame m a ch.after.tf,
        set_alarm uthread_quanta (record (set_alarm 0 s) {
          table = modify ts' k (set_state t_running);
          current = k;
          current_ind = ch.after.t_ind;
          freed = freed';
        }),
        rw (uthread_schedule, at, here, e, ch.there) refl,
        record {
          table = ts';
          turn = rw same_length ch;
          now = set_state t_running ch.after;
          current = get_elem?-modify_self ts' k (set_state t_running) ch.after ch.there;
          running = refl;
          resumed = rw frame (
              ap (λ (f : TrapFrame). record f { eax = 0 })
                (load_frame-store_frame m (store_frame m a ch.after.tf) a ch.after.tf
                    (subst IsWords (sym ch.frame) (saved-IsWords k ch.thread w all ch.before))
                    (λ x p r. refl)
                  ∙ ch.frame));
          alarmed = refl;
        },
      )
