-- ===== src/Incoming/Highest.antt =====
-- `checkPendingSignals` of d445f14: it takes the highest pending signal.
use os_ass.Common.{
  ℕ, zero, suc, ◌+◌, ◌-◌, ◌/◌, ◌%◌, ◌^◌, ◌≤◌, ◌<◌, ◌≡◌, ◌≢◌, ◌⊎◌, inl, inr, true, not, ◌&&◌, List,
  arith, ◌==◌, Bool-cases, get_or,
}
use native.Mathlib.Nat.{pow-suc}
use os_ass.Common.Memory.{Memory}
use os_ass.Proc.{Proc, numsig}
use os_ass.Signal.{push_signal, ret_at, enter_handler}
use os_ass.Incoming.{accepted, ret_put, Handled, count_shifts, pick, handle, check_pending}

-- `n` is the highest bit of `w`, and `rest` is what remains of the word without it.
pub record IsHighest (w n : ℕ) : Type 0 where
  pub low : 2 ^ n ≤ w
  pub high : w < 2 ^ suc n

-- The number of shifts that empty a word is one more than its highest bit.
count_shifts-IsHighest :
    (r w c : ℕ)
    → w < 2 ^ r
    → 0 < w
    → (n : ℕ) × (count_shifts (suc r) w c ≡ c + suc n) × IsHighest w n × (n < r)
unfolding count_shifts
count_shifts-IsHighest zero w c h p = absurd (omega arith)
count_shifts-IsHighest (suc r) w c h p = elim (Bool-cases (w == 1)) [
  | inl one ↦ (0, ground arith, record { low = ground arith; high = ground arith }, omega arith)
  | inr more ↦
      let (n, e, hi, lt) =
        count_shifts-IsHighest r (w / 2) (c + 1) (omega (arith, pow-suc 2 r)) (ground arith) in
      (
        suc n,
        ground (arith, e),
        record {
          low = omega (arith, hi.low, pow-suc 2 n);
          high = omega (arith, hi.high, pow-suc 2 (suc n));
        },
        omega arith,
      )
]

pick-IsHighest : (w : ℕ) → w < 2 ^ 32 → 0 < w → IsHighest w (pick w) × (pick w < numsig)
unfolding pick
pick-IsHighest w h p = elim (Bool-cases (w == 1)) [
  | inl one ↦ rw (one, pick) (record { low = ground arith; high = ground arith }, omega arith)
  | inr more ↦
      let (n, e, hi, lt) = count_shifts-IsHighest 32 w 0 h p in rw (more, pick, e) (shifted n hi lt)
]
  where
    shifted :
        (n : ℕ)
        → IsHighest w n
        → n < numsig
        → IsHighest w (0 + suc n - 1) × (0 + suc n - 1 < numsig)
    shifted n hi lt = let e : 0 + suc n - 1 ≡ n = omega arith in rw e (hi, lt)

-- What `checkPendingSignals` does with the pending signal `n`.
pub record TakesHighest (wrapper : List ℕ) (m : Memory) (p : Proc) (n : ℕ) (c : Handled)
    : Type 0 where
  pub highest : IsHighest p.pending n
  pub in_range : n < numsig
  pub cleared : c.proc.pending + 2 ^ n ≡ p.pending
  -- The default handler prints, or the process enters its own.
  pub outcome :
      ((get_or p.handlers n 0 ≡ 0)
        × (c.printed ≡ accepted n p.pid)
        × (c.mem ≡ m)
        × (c.proc.tf ≡ p.tf))
      ⊎ ((get_or p.handlers n 0 ≢ 0)
          × (c.printed ≡ ret_put (ret_at wrapper p.tf.esp))
          × (c.mem ≡ push_signal wrapper m p.tf n)
          × (c.proc.tf ≡ enter_handler wrapper p.tf (get_or p.handlers n 0)))

-- In user mode with some signal pending, the highest one is taken: exactly its bit is cleared, and
-- either the default handler prints it, or the process enters the handler that is set and the place of
-- the return address is printed.
pub check_pending-TakesHighest :
    (wrapper : List ℕ) (m : Memory) (p : Proc)
    → p.pending < 2 ^ 32
    → p.pending ≢ 0
    → p.tf.cs % 4 ≡ 3
    → (n : ℕ) × TakesHighest wrapper m p n (check_pending wrapper m p)
unfolding check_pending handle
check_pending-TakesHighest wrapper m p h some_set user =
    let (hi, lt) = pick-IsHighest p.pending h (omega arith) in
    (pick p.pending, rw (user_mode, check_pending) (taken (pick p.pending) hi lt))
  where
    user_mode : (p.tf.cs % 4 == 3 && not (p.pending == 0)) ≡ true
    user_mode = ground arith

    taken :
        (n : ℕ)
        → IsHighest p.pending n
        → n < numsig
        → TakesHighest wrapper m p n (handle wrapper m p n)
    taken n hi lt = record {
      highest = hi;
      in_range = lt;
      cleared = ground (arith, hi.low);
      outcome = ground arith;
    }
