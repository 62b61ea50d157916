-- ===== src/Signal.antt =====
-- proc.c, HEAD's side of the merge: signals. A process's own calls take it and return it anew; user
-- memory is the memory of that process.
pub mod Frame
pub mod Pending
pub mod Table
pub mod Alarm
mod Tests
use os_ass.Common.{
  ℕ, zero, suc, ◌+◌, ◌-◌, ◌*◌, ◌/◌, ◌%◌, ◌^◌, ◌≤◌, ◌<◌, min, ◌≡◌, refl, sym, ap, ◌∙◌, ◌≢◌, ◌↔◌, ◌⊎◌,
  inl, inr, Bool, true, false, not, ◌&&◌, ◌||◌, Option, none, some, List, [], ◌∷◌, ◌++◌, map, arith,
  ltb, leb, ◌==◌, if◌then◌else◌, Bool-cases, Option-cases, ltb→lt, lt→ltb, ==_iff, ==_refl, length,
  get_elem?, get_or, set, replicate, length-append, length-set, length-replicate, get_elem?-set,
  get_or-set, get_elem?-lt-length, modify, length-modify, get_elem?-modify, find_index, IsFirst,
  find_index-IsFirst, find_index-none, Outcome, done, panic, ◌>>=◌,
}
use Prim.Native.Nat.{bit_or, bit_and, bit_xor}
use os_ass.Common.Int.{ℤ, pos, negsuc, eq_nat, below, minus_one}
use os_ass.Common.Memory.{Memory, sub32, store_bytes, store_word}
use os_ass.TrapFrame
use os_ass.TrapFrame.{TrapFrame, store_frame, load_frame}
use os_ass.Proc.{Proc, ProcState, numsig, sigalrm}

-- `(sighandler_t)(-1)`
abbrev pub no_handler : ℕ
no_handler = 0xffffffff

-- Sets the handler of a signal, and returns the old one.
unfoldable pub signal : Proc → (signum : ℤ) → (handler : ℕ) → ℕ × Proc
signal p signum handler = elim (below numsig signum) [
  | none ↦ (no_handler, p)
  | some n ↦ (get_or p.handlers n 0, record p { handlers = set p.handlers n handler })
]

-- `p->pending |= 1<<signum`
abbrev pub raise : ℕ → Proc → Proc
raise n p = record p { pending = bit_or p.pending (2 ^ n) }

-- Marks a signal pending in the first process of the table that has the pid.
unfoldable pub sigsend : List Proc → (pid signum : ℤ) → ℤ × List Proc
sigsend ps pid signum = elim (below numsig signum) [
  | none ↦ (minus_one, ps)
  | some n ↦ elim (find_index (λ p. eq_nat pid p.pid) ps) [
    | none ↦ (minus_one, ps)
    | some i ↦ (pos 0, modify ps i (raise n))
  ]
]

-- The pointer that `memmove` returns is never below 0, so the first branch is not taken.
unfoldable pub sigreturn : Memory → Proc → ℤ × Proc
sigreturn m p = (pos 0, record p { tf = load_frame m ((p.tf.ebp + 8) % 2 ^ 32); handling = false })

-- `proc->tf->eax = syscalls[num]();` of `syscall`, with the result of a call as a word.
abbrev pub word_of : ℤ → ℕ
word_of (pos n) = n % 2 ^ 32
word_of (negsuc n) = (2 ^ 32 - 1 - n) % 2 ^ 32

abbrev pub store_result : ℤ × Proc → Proc
store_result (r, p) = record p { tf = record (p.tf) { eax = word_of r } }

-- The system call as the process sees it: `sys_sigreturn` returns what `sigreturn` does.
unfoldable pub syscall_sigreturn : Memory → Proc → Proc
unfolding sigreturn
syscall_sigreturn m p = store_result (sigreturn m p)

-- `for(signum=0; signum<NUMSIG; signum++) if(pending & 1 << signum) goto handle;`
unfoldable pub first_pending : (rounds signum pending : ℕ) → Option ℕ
first_pending zero signum pending = none
first_pending (suc r) signum pending =
    let rest = first_pending r (suc signum) pending in
    if bit_and pending (2 ^ signum) == 0 then rest else some signum

-- The word that marks a saved frame.
abbrev pub tf_flag : ℕ
tf_flag = 0xABCDEF

-- What `checkPEndingSignals` leaves: the process, its memory, and what the default handler prints
-- (a signal and a pid).
pub record Checked : Type 0 where
  pub proc : Proc
  pub mem : Memory
  pub printed : Option (ℕ × ℕ)

-- `wrapper` is the machine code of `sigretwrapper`, as the compiler lays it out.
module _ (wrapper : List ℕ) where
  -- Where the pieces go below the user's stack pointer: the wrapper's code, the mark, the frame, the
  -- signal's number and the return address.
  abbrev pub code_at : ℕ → ℕ
  code_at esp = sub32 esp (length wrapper)

  abbrev pub flag_at : ℕ → ℕ
  flag_at esp = sub32 (code_at esp) 4

  abbrev pub frame_at : ℕ → ℕ
  frame_at esp = sub32 (flag_at esp) TrapFrame.size

  abbrev pub arg_at : ℕ → ℕ
  arg_at esp = sub32 (frame_at esp) 4

  abbrev pub ret_at : ℕ → ℕ
  ret_at esp = sub32 (arg_at esp) 4

  unfoldable pub push_signal : Memory → TrapFrame → (signum : ℕ) → Memory
  push_signal m t n =
      let m₁ = store_bytes m (code_at t.esp) wrapper in
      let m₂ = store_word m₁ (flag_at t.esp) tf_flag in
      let m₃ = store_frame m₂ (frame_at t.esp) t in
      let m₄ = store_word m₃ (arg_at t.esp) n in store_word m₄ (ret_at t.esp) (code_at t.esp)

  -- The frame with which the process enters the handler.
  abbrev pub enter_handler : TrapFrame → (handler : ℕ) → TrapFrame
  enter_handler t h = record t { eip = h; ebp = ret_at t.esp; esp = ret_at t.esp }

  unfoldable pub handle : Memory → Proc → (signum : ℕ) → Checked
  handle m p n =
      let h = get_or p.handlers n 0 in
      let q = record p { pending = bit_xor p.pending (2 ^ n) } in
      if h == 0 then record { proc = q; mem = m; printed = some (n, p.pid) } else record {
        proc = record q { tf = enter_handler p.tf h };
        mem = push_signal m p.tf n;
        printed = none;
      }

  -- `cs` is that of the trap frame at hand; its two low bits are the privilege level.
  unfoldable pub check_pending : Memory → (cs : ℕ) → Proc → Checked
  check_pending m cs p =
      if p.pending == 0 || (p.handling || not (cs % 4 == 3))
      then record { proc = p; mem = m; printed = none }
      else elim (first_pending numsig 0 p.pending) [
        | none ↦ record { proc = p; mem = m; printed = none }
        | some n ↦ handle m p n
      ]

-- Sets the alarm, or cancels a pending one; returns the ticks that are left.
unfoldable pub alarm : Proc → (tic : ℕ) → ℕ × Proc
alarm p tic =
    if tic == 0
    then if bit_and p.pending (2 ^ sigalrm) == 0
      then (0, record p { alarm_flag = 0 })
      else (0, record p { pending = bit_xor p.pending (2 ^ sigalrm); alarm_flag = 0 })
    else (tic, record p { alarm_flag = tic })

abbrev pub count_down : List Proc → ℕ → Proc → List Proc
count_down ps i p =
    let ps' = modify ps i (λ q. record q { alarm_flag = q.alarm_flag - 1 }) in
    if p.alarm_flag - 1 == 0 then (sigsend ps' (pos p.pid) (pos sigalrm)).1 else ps'

-- One round of the loop of `updateAlarms`, at index `i` of the table.
unfoldable pub tick : List Proc → ℕ → List Proc
tick ps i = elim (get_elem? ps i) [
  | none ↦ ps
  | some p ↦ if ltb 0 p.alarm_flag then count_down ps i p else ps
]

unfoldable pub update_alarms_loop : (rounds i : ℕ) → List Proc → List Proc
update_alarms_loop zero i ps = ps
update_alarms_loop (suc r) i ps = update_alarms_loop r (suc i) (tick ps i)

unfoldable pub update_alarms : List Proc → List Proc
update_alarms ps = update_alarms_loop (length ps) 0 ps
