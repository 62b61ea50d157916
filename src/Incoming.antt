-- ===== src/Incoming.antt =====
-- proc.c, the side of the merge marked d445f14: its own signals, sent, taken and timed in other ways
-- than HEAD's.
pub mod Highest
pub mod Faults
mod Tests
use os_ass.Common.{
  ℕ, zero, suc, ◌+◌, ◌-◌, ◌*◌, ◌/◌, ◌%◌, ◌^◌, ◌≤◌, ◌<◌, min, ◌≡◌, refl, sym, ap, ◌∙◌, ◌≢◌, ◌↔◌, ◌⊎◌,
  inl, inr, Bool, true, false, not, ◌&&◌, ◌||◌, Option, none, some, List, [], ◌∷◌, ◌++◌, map, arith,
  ltb, leb, ◌==◌, if◌then◌else◌, Bool-cases, Option-cases, ltb→lt, lt→ltb, ==_iff, ==_refl, length,
  get_elem?, get_or, set, replicate, length-append, length-map, length-set, length-replicate,
  get_elem?-set, get_or-set, get_elem?-lt-length, modify, length-modify, get_elem?-modify,
  get_elem?-append, modify-append, find_from, find_index, IsFirst, find_index-IsFirst,
  find_index-none, Outcome, done, panic, ◌>>=◌,
}
use Prim.Native.Nat.{bit_or, bit_and}
use os_ass.Common.Int.{ℤ, pos, negsuc, eq_nat, below, minus_one}
use os_ass.Common.Memory.{Memory, sub32, store_bytes, store_word}
use os_ass.TrapFrame.{TrapFrame, store_frame, load_frame}
use os_ass.Proc.{Proc, ProcState, numsig, sigalrm}
use os_ass.Signal.{no_handler, push_signal, ret_at, enter_handler}

-- `proc` is an index into the table, `none` while no process runs.
unfoldable pub signal : Option ℕ → List Proc → (signum : ℤ) → (handler : ℕ) → ℕ × List Proc
signal none ps signum handler = (no_handler, ps)
signal (some me) ps signum handler = elim (below numsig signum) [
  | none ↦ (no_handler, ps)
  | some n ↦ elim (get_elem? ps me) [
    | none ↦ (no_handler, ps)
    | some p ↦ (
      get_or p.handlers n 0,
      modify ps me (λ q. record q { handlers = set q.handlers n handler }),
    )
  ]
]

-- The `found` branch writes to `proc`, the process that calls. `signum` is what `sys_sigsend` lets
-- through, a number below 32.
unfoldable pub sigsend : (me : ℕ) → List Proc → (pid : ℤ) → (signum : ℕ) → ℤ × List Proc
sigsend me ps pid n = elim (find_index (λ p. eq_nat pid p.pid) ps) [
  | none ↦ (minus_one, ps)
  | some k ↦ (pos 0, modify ps me (λ q. record q { pending = bit_or q.pending (2 ^ n) }))
]

unfoldable pub sigreturn : Memory → Proc → ℤ × Proc
sigreturn m p = (pos 0, record p { tf = load_frame m ((p.tf.ebp + 8) % 2 ^ 32) })

-- `for(sigNum=-1; runner!=0; runner>>=1) sigNum++`, with `sigNum + 1` in place of `sigNum`.
unfoldable pub count_shifts : (rounds runner count : ℕ) → ℕ
count_shifts zero runner count = count
count_shifts (suc r) runner count =
    let rest = count_shifts r (runner / 2) (count + 1) in if runner == 0 then count else rest

-- A 32-bit word is 0 after 32 shifts.
unfoldable pub pick : (pending : ℕ) → ℕ
pick w = if w == 1 then 0 else count_shifts 33 w 0 - 1

-- What `cprintf` shows: the default handler's line, or the place of the return address.
pub data Output : Type 0 where
  accepted : (signum pid : ℕ) → Output
  ret_put : (address : ℕ) → Output
  silent : Output

-- What `checkPendingSignals` leaves.
pub record Handled : Type 0 where
  pub proc : Proc
  pub mem : Memory
  pub printed : Output

module _ (wrapper : List ℕ) where
  -- The frame is built as in HEAD, with the same layout.
  unfoldable pub handle : Memory → Proc → (signum : ℕ) → Handled
  handle m p n =
      let h = get_or p.handlers n 0 in
      let q = record p { pending = (p.pending + 2 ^ 32 - 2 ^ n) % 2 ^ 32 } in
      if h == 0 then record { proc = q; mem = m; printed = accepted n p.pid } else record {
        proc = record q { tf = enter_handler wrapper p.tf h };
        mem = push_signal wrapper m p.tf n;
        printed = ret_put (ret_at wrapper p.tf.esp);
      }

  unfoldable pub check_pending : Memory → Proc → Handled
  check_pending m p =
      if p.tf.cs % 4 == 3 && not (p.pending == 0)
      then handle m p (pick p.pending)
      else record { proc = p; mem = m; printed = silent }

-- `alarmFlag > 0`, read as a signed number.
abbrev pub is_positive : ℕ → Bool
is_positive a = ltb 0 a && ltb a (2 ^ 31)

unfoldable pub update_alarm : Proc → Proc
update_alarm p =
    if is_positive p.alarm_flag
    then if p.alarm_flag - 1 == 0
      then record p { alarm_flag = p.alarm_flag - 1; pending = bit_or p.pending (2 ^ sigalrm) }
      else record p { alarm_flag = p.alarm_flag - 1 }
    else p

-- `updateAlarams`: a loop over the table, each round at one process.
unfoldable pub update_alarams : List Proc → List Proc
update_alarams ps = map update_alarm ps

-- `~1 << 14`, as a 32-bit word
abbrev pub alarm_mask : ℕ
alarm_mask = (0xFFFFFFFE * 2 ^ 14) % 2 ^ 32

unfoldable pub alarm : Proc → (ti : ℤ) → ℤ × Proc
alarm p (negsuc a) = (minus_one, p)
alarm p (pos t) =
    if t == 0
    then (pos 0, record p { pending = bit_and p.pending alarm_mask })
    else (pos 0, record p { alarm_flag = t })
