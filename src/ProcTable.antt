-- ===== src/ProcTable.antt =====
-- proc.c: the table of processes, from creation to reaping. `ptable.lock` is held throughout each
-- step below, so a step is atomic, but for what `exit` calls of other files before it takes the lock.
pub mod Example
pub mod Number
pub mod Create
pub mod Wakeup
pub mod Wait
pub mod Abandon
pub mod Exit
pub mod Zombie
pub mod Fork
mod ForkTests
mod Tests
use os_ass.Common.{
  ℕ, zero, suc, ◌+◌, ◌-◌, ◌*◌, ◌/◌, ◌%◌, ◌^◌, ◌≤◌, ◌<◌, min, ◌≡◌, refl, sym, ap, ◌∙◌, ◌≢◌, ◌↔◌, ◌⊎◌,
  inl, inr, Bool, true, false, not, ◌&&◌, ◌||◌, Option, none, some, List, [], ◌∷◌, ◌++◌, map, arith,
  ltb, leb, ◌==◌, if◌then◌else◌, Bool-cases, Option-cases, ltb→lt, lt→ltb, ==_iff, ==_refl, length,
  get_elem?, get_or, set, replicate, length-append, length-map, length-set, length-replicate,
  get_elem?-set, get_or-set, get_elem?-lt-length, modify, length-modify, get_elem?-modify,
  get_elem?-append, modify-append, find_from, find_index, IsFirst, find_index-IsFirst,
  find_index-none, Outcome, done, panic, ◌>>=◌,
}
use mathlib.Core.Option
use os_ass.Common.Int.{ℤ, pos, negsuc, eq_nat, minus_one}
use os_ass.Kalloc.{Kmem, kalloc, kfree, store}
use os_ass.TrapFrame
use os_ass.TrapFrame.{TrapFrame, of_words}
use os_ass.Proc.{
  Proc, ProcState, unused, embryo, sleeping, runnable, running, zombie, is_state, Context, Chan,
  null, proc_at, is_chan, numsig, nofile, kstack_size,
}

-- `ptable`, `nextpid` and `initproc`, with the allocator behind them and, for one processor, `proc`.
pub record Kernel : Type 0 where
  pub procs : List Proc
  pub current : Option ℕ
  pub initproc : ℕ
  pub nextpid : ℕ
  pub kmem : Kmem

-- The words of memory from an address on.
abbrev pub words_at : (ℕ → ℕ) → ℕ → ℕ → List ℕ
words_at m a zero = []
words_at m a (suc n) = m a ∷ words_at m (a + 4) n

-- The addresses of `forkret` and `trapret`.
module _ (forkret trapret : ℕ) where
  -- A process on its new kernel stack: the trap frame is what lies there.
  abbrev pub set_up : (page : ℕ) → (ℕ → ℕ) → Proc → Proc
  set_up page m p = record p {
    kstack = page;
    tf = of_words (words_at m (page + kstack_size - TrapFrame.size) 19);
    context = record { edi = 0; esi = 0; ebx = 0; ebp = 0; eip = forkret };
    pending = 0;
    alarm_flag = 0xffffffff;
    handlers = replicate numsig 0;
    handling = false;
  }

  -- The word that `forkret` returns to.
  abbrev pub ret_word : (page : ℕ) → Kmem → Kmem
  ret_word page k = record k { mem = store k.mem (page + kstack_size - TrapFrame.size - 4) trapret }

  -- What follows once the free slot `i` has its pid.
  unfoldable pub give_stack : Kernel → ℕ → Option ℕ × Kernel
  give_stack k i =
      let (page, m) = kalloc k.kmem in
      if page == 0
      then (
        none,
        record k {
          kmem = m;
          procs = modify k.procs i (λ p. record p { kstack = 0; state = unused });
        },
      )
      else (
        some i,
        record k { kmem = ret_word page m; procs = modify k.procs i (set_up page m.mem) },
      )

  unfoldable pub allocproc : Kernel → Option ℕ × Kernel
  allocproc k = elim (find_index (λ p. is_state p.state unused) k.procs) [
    | none ↦ (none, k)
    | some i ↦
        give_stack
          (record k {
            procs = modify k.procs i (λ p. record p { state = embryo; pid = k.nextpid });
            nextpid = k.nextpid + 1;
          })
          i
  ]

-- `wakeup1`
abbrev pub wake : Chan → Proc → Proc
wake c p =
    if is_state p.state sleeping && is_chan p.chan c then record p { state = runnable } else p

unfoldable pub wakeup1 : Chan → List Proc → List Proc
wakeup1 c ps = map (wake c) ps

-- `kill`: the process is marked, and woken if it sleeps.
abbrev pub mark_killed : Proc → Proc
mark_killed p =
    if is_state p.state sleeping
    then record p { killed = true; state = runnable }
    else record p { killed = true }

unfoldable pub kill : List Proc → (pid : ℤ) → ℤ × List Proc
kill ps pid = elim (find_index (λ p. eq_nat pid p.pid) ps) [
  | none ↦ (minus_one, ps)
  | some i ↦ (pos 0, modify ps i mark_killed)
]

abbrev pub chan_of : Option ℕ → Chan
chan_of none = null
chan_of (some i) = proc_at i

abbrev pub is_child_of : ℕ → Proc → Bool
is_child_of me p = elim p.parent [ none ↦ false | some j ↦ j == me ]

-- One round of the loop of `exit` that passes abandoned children to init.
unfoldable pub pass_on : (me init : ℕ) → ℕ → List Proc → List Proc
unfolding is_state
pass_on me init i ps = elim (get_elem? ps i) [
  | none ↦ ps
  | some p ↦
      if is_child_of me p
      then (let ps' = modify ps i (λ q. record q { parent = some init }) in
          if is_state p.state zombie then wakeup1 (proc_at init) ps' else ps')
      else ps
]

unfoldable pub abandon : (me init rounds i : ℕ) → List Proc → List Proc
abandon me init zero i ps = ps
abandon me init (suc r) i ps = abandon me init r (suc i) (pass_on me init i ps)

abbrev pub make_zombie : Proc → Proc
make_zombie p = record p { state = zombie }

-- The table when `exit` calls `sched`, from the time it takes the lock; `parent` is the parent of
-- `me`.
unfoldable pub exit_table : (me init : ℕ) → (parent : Option ℕ) → List Proc → List Proc
exit_table me init parent ps =
    modify (abandon me init (length ps) 0 (wakeup1 (chan_of parent) ps)) me make_zombie

-- What `exit` calls of file.c, log.c and fs.c, where `W` is the state of those: each call may panic,
-- may change the table (by a wakeup, or while it sleeps), and is its result when it returns.
pub record Closing (W : Type 0) : Type 0 where
  pub fileclose : (f : ℕ) → Kernel × W → Outcome (Kernel × W)
  pub begin_op : Kernel × W → Outcome (Kernel × W)
  pub iput : (ip : ℕ) → Kernel × W → Outcome (Kernel × W)
  pub end_op : Kernel × W → Outcome (Kernel × W)

-- A field of `proc`, if the table has it.
abbrev pub field_of : {A : Type 0} → A → (Proc → A) → Option Proc → A
field_of a f none = a
field_of a f (some p) = f p

module _ {W : Type 0} (c : Closing W) (me : ℕ) where
  -- `proc->... = ...`
  abbrev pub update_proc : (Proc → Proc) → Kernel × W → Kernel × W
  update_proc f s = (record (s.0) { procs = modify (s.0).procs me f }, s.1)

  -- One round of the loop that closes all open files.
  unfoldable pub close_file : (fd : ℕ) → Kernel × W → Outcome (Kernel × W)
  close_file fd s =
      let f = field_of 0 (λ (p : Proc). get_or p.ofile fd 0) (get_elem? (s.0).procs me) in
      if f == 0
      then done s
      else c.fileclose f s >>= λ t.
          done (update_proc (λ p. record p { ofile = set p.ofile fd 0 }) t)

  unfoldable pub close_files : (rounds fd : ℕ) → Kernel × W → Outcome (Kernel × W)
  close_files zero fd s = done s
  close_files (suc r) fd s = close_file fd s >>= λ t. close_files r (suc fd) t

  unfoldable pub leave_cwd : Kernel × W → Outcome (Kernel × W)
  leave_cwd s = c.begin_op s >>= λ t.
      c.iput (field_of 0 (λ (p : Proc). p.cwd) (get_elem? (t.0).procs me)) t >>= λ u.
      c.end_op u >>= λ v. done (update_proc (λ p. record p { cwd = 0 }) v)

  -- From `acquire(&ptable.lock)` on.
  abbrev pub exit_locked : Kernel × W → Kernel × W
  exit_locked s = (
    record (s.0) {
      procs =
          exit_table me (s.0).initproc
            (field_of none (λ (p : Proc). p.parent) (get_elem? (s.0).procs me)) (s.0).procs;
    },
    s.1,
  )

  -- `exit`, up to the switch to the scheduler.
  unfoldable pub exit : Kernel × W → Outcome (Kernel × W)
  exit s =
      if me == (s.0).initproc
      then panic "init exiting"
      else close_files nofile 0 s >>= λ t. leave_cwd t >>= λ u. done (exit_locked u)

-- The lock that a process hands to `sleep`: that of the table, or another one, by its address.
pub data Lock : Type 0 where
  ptable_lock : Lock
  lock_at : (a : ℕ) → Lock

-- `sleep`, up to the switch: the process `me` waits on a channel, with the lock `lk`, which is
-- `none` for a null pointer.
-- `resume` is what it does last.
unfoldable pub sleep : Option ℕ → Chan → (lk : Option Lock) → List Proc → Outcome (List Proc)
sleep none c lk ps = panic "sleep"
sleep (some me) c none ps = panic "sleep without lk"
sleep (some me) c (some lk) ps = done (modify ps me (λ p. record p { chan = c; state = sleeping }))

unfoldable pub resume : ℕ → List Proc → List Proc
resume me ps = modify ps me (λ p. record p { chan = null })

-- `yield`, and a round of `scheduler` that picks the process at `i`.
unfoldable pub yield_table : ℕ → List Proc → List Proc
yield_table me ps = modify ps me (λ p. record p { state = runnable })

unfoldable pub pick : List Proc → ℕ → Option (List Proc)
pick ps i = elim (get_elem? ps i) [
  | none ↦ none
  | some p ↦
      if is_state p.state runnable
      then some (modify ps i (λ q. record q { state = running }))
      else none
]

-- One pass of `wait` over the table: the first zombie child, and whether there are children.
unfoldable pub wait_scan : (me i : ℕ) → (havekids : Bool) → List Proc → Option ℕ × Bool
wait_scan me i havekids [] = (none, havekids)
wait_scan me i havekids (p ∷ ps) =
    if is_child_of me p && is_state p.state zombie
    then (some i, true)
    else wait_scan me (suc i) (is_child_of me p || havekids) ps

abbrev pub clear_name : List ℕ → List ℕ
clear_name s = set s 0 0

-- What becomes of the slot of a reaped child.
abbrev pub reap : Proc → Proc
reap p = record p {
  kstack = 0;
  pid = 0;
  parent = none;
  name = clear_name p.name;
  killed = false;
  state = unused;
  pending = 0;
  handlers = replicate numsig 0;
  handling = false;
  alarm_flag = 0;
}

pub data Waited : Type 0 where
  reaped : (pid : ℕ) → Kernel → Waited
  failed : Waited
  asleep : List Proc → Waited

-- `freevm` gives the pages of an address space back to the allocator (vm.c).
module _ (end : ℕ) (freevm : Kmem → ℕ → Outcome Kmem) where
  abbrev pub reap_at : Kernel → ℕ → Proc → Outcome Waited
  reap_at k i p = kfree end k.kmem p.kstack >>= λ m. freevm m p.pgdir >>= λ m'.
      done (reaped p.pid (record k { kmem = m'; procs = modify k.procs i reap }))

  -- One round of the loop of `wait`, by the process at `me`: it returns the pid of a child, or -1, or
  -- goes to sleep on itself and starts over when it is woken.
  unfoldable pub wait_step : Kernel → (me : ℕ) → (killed : Bool) → Outcome Waited
  wait_step k me killed =
      let (child, havekids) = wait_scan me 0 false k.procs in
      elim child [
        | some i ↦ elim (get_elem? k.procs i) [ none ↦ done failed | some p ↦ reap_at k i p ]
        | none ↦
            if not havekids || killed
            then done failed
            else sleep (some me) (proc_at me) (some ptable_lock) k.procs >>= λ ps. done (asleep ps)
      ]
