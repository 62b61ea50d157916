-- ===== src/Uthread.antt =====
-- uthread.c, HEAD's side of the merge: threads of a user process, switched by the handler of SIGALRM.
-- Calls of the kernel and of malloc are values: `alarm` holds what the last `alarm(n)` asked for, and
-- `sent` that a SIGALRM is on its way to the process. While no alarm runs a function is not
-- interrupted, so each is one atomic step.
pub mod Semaphore
pub mod Switch
pub mod Chosen
pub mod Turn
mod Tests
use os_ass.Common.Int.{ℤ, pos, negsuc, minus_one}
use os_ass.Common.Memory.{Memory, load_word, store_word}
use os_ass.TrapFrame
use os_ass.TrapFrame.{TrapFrame, store_frame, load_frame}
use os_ass.Signal.{tf_flag}
use mathlib.Core.Option
use os_ass.Common.{
  ℕ, zero, suc, ◌+◌, ◌-◌, ◌*◌, ◌/◌, ◌%◌, ◌^◌, ◌≤◌, ◌<◌, min, ◌≡◌, refl, sym, ap, ◌∙◌, ◌≢◌, ◌↔◌, ◌⊎◌,
  inl, inr, Bool, true, false, not, ◌&&◌, ◌||◌, Option, none, some, List, [], ◌∷◌, ◌++◌, map, arith,
  ltb, leb, ◌==◌, if◌then◌else◌, Bool-cases, Option-cases, ltb→lt, lt→ltb, ==_iff, ==_refl, length,
  get_elem?, get_or, set, replicate, length-append, length-map, length-set, length-replicate,
  get_elem?-set, get_or-set, get_elem?-lt-length, modify, length-modify, get_elem?-modify,
  get_elem?-append, modify-append, find_from, find_index, IsFirst, find_index-IsFirst,
  find_index-none, Outcome, done, panic, ◌>>=◌, done_inj, some_inj,
}

abbrev pub max_uthreads : ℕ
max_uthreads = 64

abbrev pub stack_size : ℕ
stack_size = 4096

abbrev pub uthread_quanta : ℕ
uthread_quanta = 5

-- `enum tstate`
pub data ThreadState : Type 0 where
  t_unused t_sleeping t_runnable t_running : ThreadState

unfoldable pub is_t : ThreadState → ThreadState → Bool
is_t t_unused t_unused = true
is_t t_sleeping t_sleeping = true
is_t t_runnable t_runnable = true
is_t t_running t_running = true
is_t _ _ = false

-- `struct uthread`; `joining_list` has MAX_UTHREADS entries, and `wakeup` is a word that is read as
-- a signed number.
pub record Thread : Type 0 where
  pub tid : ℕ
  pub t_stack : ℕ
  pub state : ThreadState
  pub tf : TrapFrame
  pub pid : ℕ
  pub num_of_joining : ℕ
  pub joining_list : List ℕ
  pub wakeup : ℕ
  pub t_ind : ℕ

-- The globals, with the stacks given back by `free`, the latest first.
pub record Threads : Type 0 where
  pub table : List Thread
  pub current : ℕ
  pub current_ind : ℕ
  pub nexttid : ℕ
  pub num_of_threads : ℕ
  pub alarm : ℕ
  pub sent : Bool
  pub freed : List ℕ

-- `alarm(n)`; `alarm(0)` also takes back a SIGALRM on its way.
abbrev pub set_alarm : ℕ → Threads → Threads
set_alarm n s = if n == 0 then record s { alarm = 0; sent = false } else record s { alarm = n }

-- `sigsend(pid, SIGALRM)`, to the process itself
abbrev pub send : Threads → Threads
send s = record s { sent = true }

abbrev pub modify_thread : ℕ → (Thread → Thread) → Threads → Threads
modify_thread i f s = record s { table = modify s.table i f }

abbrev pub set_state : ThreadState → Thread → Thread
set_state t u = record u { state = t }

-- `uthread_init`, but for `bsemtable`; `pid` is what `getpid` returns.
unfoldable pub uthread_init : (pid : ℕ) → Threads → ℕ × Threads
uthread_init pid s = (
  s.nexttid,
  record s {
    table =
        modify (map (set_state t_unused) s.table) 0
          (λ u. record u { tid = s.nexttid; pid = pid; state = t_running; t_stack = 0; t_ind = 0 });
    nexttid = s.nexttid + 1;
    num_of_threads = s.num_of_threads + 1;
    current = 0;
    current_ind = 0;
    sent = true;
  },
)

-- The fields that `uthread_create` sets first, from the current thread.
abbrev pub begin_thread : (tid pid ind : ℕ) → TrapFrame → Thread → Thread
begin_thread tid pid ind tf u = record u {
  tid = tid;
  pid = pid;
  tf = tf;
  t_ind = ind;
  num_of_joining = 0;
}

abbrev pub start_thread : (stack start_func : ℕ) → Thread → Thread
start_thread stack start_func u = record u {
  t_stack = stack;
  tf = record (u.tf) { esp = stack + stack_size - 8; eip = start_func };
  state = t_runnable;
}

-- `malloc` is the address that `malloc(STACKSIZE)` returns, `exit_at` that of `uthread_exit`.
unfoldable pub uthread_create :
    (pid malloc exit_at start_func arg : ℕ) → Memory → Threads → ℤ × Memory × Threads
uthread_create pid malloc exit_at start_func arg m s =
    elim (find_index (λ u. is_t u.state t_unused) s.table) [
      | none ↦ (minus_one, m, set_alarm 0 s)
      | some i ↦ elim (get_elem? s.table i) [
        | none ↦ (minus_one, m, set_alarm 0 s)
        | some u ↦ elim (get_elem? s.table s.current) [
          | none ↦ (minus_one, m, set_alarm 0 s)
          | some c ↦
              let s₁ = record (set_alarm 0 s) {
                num_of_threads = s.num_of_threads + 1;
                nexttid = s.nexttid + 1;
                table = modify s.table i (begin_thread s.nexttid pid i c.tf);
              } in
              let stack = if u.t_stack == 0 then malloc else u.t_stack in
              if stack == 0
              then (minus_one, m, send (modify_thread i (set_state t_unused) s₁))
              else (
                pos s.nexttid,
                store_word (store_word m (stack + stack_size - 4) arg) (stack + stack_size - 8)
                    exit_at,
                set_alarm uthread_quanta (modify_thread i (start_thread stack start_func) s₁),
              )
        ]
      ]
    ]

-- `findTrapframe` on fuel: the word that marks a frame, searched for upward; the frame is below it.
unfoldable pub find_trapframe : (rounds : ℕ) → Memory → (sp : ℕ) → Option ℕ
find_trapframe zero m sp = none
find_trapframe (suc r) m sp =
    let rest = find_trapframe r m ((sp + 4) % 2 ^ 32) in
    if load_word m sp == tf_flag then some ((sp + 2 ^ 32 - TrapFrame.size) % 2 ^ 32) else rest

-- `ut->wakeup > 0 && ut->wakeup <= uptime()`, signed
abbrev pub is_due : (now : ℕ) → ℕ → Bool
is_due now t = ltb 0 t && (ltb t (2 ^ 31) && (ltb now (2 ^ 31) && leb t now))

abbrev pub step_index : (size : ℕ) → ℕ → ℕ
step_index size i = if leb size (suc i) then 0 else suc i

abbrev pub wake_due : Thread → Thread
wake_due u = record u { wakeup = 0; state = t_runnable }

-- A stack that the search for the next thread frees: that of a thread that has ended.
abbrev pub is_left : (tid : ℕ) → Thread → Bool
is_left tid u =
    is_t u.state t_unused && (not (u.t_stack == 0) && (not (u.tid == tid) && not (u.tid == 1)))

abbrev pub drop_stack : Thread → Thread
drop_stack u = record u { t_stack = 0 }

-- The loop of `uthread_schedule` on fuel, from index `i` on: the index it stops at. `uptime` is read
-- anew in each round.
unfoldable pub search :
    (rounds : ℕ)
    → (uptime : ℕ → ℕ) → (tid i : ℕ) → List Thread
    → (freed : List ℕ) → Option (ℕ × List Thread × List ℕ)
search zero uptime tid i ts freed = none
search (suc r) uptime tid i ts freed = elim (get_elem? ts i) [
  | none ↦ none
  | some u ↦ elim (is_t u.state t_runnable) [
    | true ↦ some (i, ts, freed)
    | false ↦ elim (is_t u.state t_sleeping && is_due (uptime 0) u.wakeup) [
      | true ↦ some (i, modify ts i wake_due, freed)
      | false ↦ elim (is_left tid u) [
        | true ↦
            search r (λ k. uptime (suc k)) tid (step_index (length ts) i) (modify ts i drop_stack)
              (u.t_stack ∷ freed)
        | false ↦ search r (λ k. uptime (suc k)) tid (step_index (length ts) i) ts freed
      ]
    ]
  ]
]

-- The current thread's frame is saved, and the thread goes back to the others that can run.
abbrev pub save : TrapFrame → Thread → Thread
save t u = record u { tf = t; state = if is_t u.state t_running then t_runnable else u.state }

-- `uthread_schedule`, `sp` its frame pointer.
unfoldable pub uthread_schedule :
    (rounds : ℕ) → (uptime : ℕ → ℕ) → (sp : ℕ) → Memory → Threads → Option (Memory × Threads)
uthread_schedule rounds uptime sp m s = elim (find_trapframe rounds m sp) [
  | none ↦ none
  | some a ↦ elim (get_elem? s.table s.current) [
    | none ↦ none
    | some c ↦
        elim (search rounds uptime c.tid (step_index (length s.table) s.current)
          (modify s.table s.current (save (load_frame m a))) s.freed) [
            | none ↦ none
            | some (i, ts, freed) ↦ elim (get_elem? ts i) [
              | none ↦ none
              | some u ↦ some (
                store_frame m a u.tf,
                set_alarm uthread_quanta (record (set_alarm 0 s) {
                  table = modify ts i (set_state t_running);
                  current = i;
                  current_ind = u.t_ind;
                  freed = freed;
                }),
              )
            ]
          ]
  ]
]

-- `u_table[...].state = T_RUNNABLE` for the threads of a joining list
abbrev pub wake_list : (rounds j : ℕ) → List ℕ → List Thread → List Thread
wake_list zero j js ts = ts
wake_list (suc r) j js ts =
    wake_list r (suc j) js (modify ts (get_or js j 0) (set_state t_runnable))

abbrev pub stacks_of : List Thread → List ℕ
stacks_of [] = []
stacks_of (u ∷ ts) = if u.t_stack == 0 then stacks_of ts else u.t_stack ∷ stacks_of ts

pub data Exited : Type 0 where
  process_over : (freed : List ℕ) → Exited
  thread_over : Threads → Exited

-- `numOfThreads` is a number of threads, at least the one that calls.
unfoldable pub uthread_exit : Threads → Exited
uthread_exit s =
    if s.num_of_threads - 1 == 0
    then process_over (stacks_of s.table ++ s.freed)
    else elim (get_elem? s.table s.current) [
      | none ↦ thread_over s
      | some c ↦ thread_over (
          send (record (set_alarm 0 s) {
            num_of_threads = s.num_of_threads - 1;
            table =
                modify (wake_list c.num_of_joining 0 c.joining_list s.table) s.current
                  (set_state t_unused);
          }))
    ]

-- The thread that is joined notes the index of the one that waits.
abbrev pub note_join : ℕ → Thread → Thread
note_join ind u = record u {
  joining_list = set u.joining_list u.num_of_joining ind;
  num_of_joining = u.num_of_joining + 1;
}

unfoldable pub uthread_join : (tid : ℕ) → Threads → ℤ × Threads
uthread_join tid s =
    elim (find_index (λ u. (u.tid == tid) && not (is_t u.state t_unused)) s.table) [
      | none ↦ (minus_one, set_alarm uthread_quanta (set_alarm 0 s))
      | some i ↦ elim (get_elem? s.table s.current) [
        | none ↦ (minus_one, set_alarm 0 s)
        | some c ↦ (
          pos 0,
          send (
              modify_thread s.current (set_state t_sleeping)
                (modify_thread i (note_join c.t_ind) (set_alarm 0 s))),
        )
      ]
    ]

abbrev pub fall_asleep : (until : ℕ) → Thread → Thread
fall_asleep until u = record u { wakeup = until; state = t_sleeping }

unfoldable pub uthread_sleep : (now : ℕ) → (ticks : ℤ) → Threads → ℤ × Threads
uthread_sleep now (negsuc t) s = (minus_one, send (set_alarm 0 s))
uthread_sleep now (pos t) s =
    let until = if t == 0 then 0 else (t + now) % 2 ^ 32 in
    (pos 0, send (modify_thread s.current (fall_asleep until) (set_alarm 0 s)))
