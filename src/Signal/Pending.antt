-- ===== src/Signal/Pending.antt =====
-- `checkPEndingSignals`: which pending signal it takes, and what becomes of it.
use os_ass.Common.{
  ℕ, zero, suc, ◌+◌, ◌%◌, ◌^◌, ◌≤◌, ◌<◌, ◌≡◌, sym, ◌≢◌, ◌⊎◌, inl, inr, true, false, not, ◌||◌, none,
  some, List, arith, ◌==◌, if◌then◌else◌, Bool-cases, Option-cases, ==_iff, get_or,
}
use os_ass.Common.Bits.{bit, bit-bit_xor, bit_test, eq-zero_of_bits}
use os_ass.Common.Memory.{Memory}
use os_ass.Proc.{Proc, numsig}
use os_ass.Signal.{first_pending, push_signal, enter_handler, Checked, handle, check_pending}

-- What the scan for a pending signal finds, from `k` on.
record IsLowest (w k limit n : ℕ) : Type 0 where
  raised : bit w n ≡ true
  from : k ≤ n
  within : n < limit
  lowest : (j : ℕ) → k ≤ j → j < n → bit w j ≡ false

first_pending-IsLowest : (r k w n : ℕ) → first_pending r k w ≡ some n → IsLowest w k (k + r) n
unfolding first_pending
first_pending-IsLowest zero k w n h = absurd (ground arith)
first_pending-IsLowest (suc r) k w n h = elim (Bool-cases (bit w k)) [
  | inl hit ↦ record {
    raised = rw (sym (at hit)) hit;
    from = omega (arith, at hit);
    within = omega (arith, at hit);
    lowest = λ j p q. absurd (omega (arith, at hit));
  }
  | inr miss ↦ skip miss (first_pending-IsLowest r (suc k) w n (on miss))
]
  where
    at : bit w k ≡ true → k ≡ n
    at hit = ground (arith, bit_test w k)

    on : bit w k ≡ false → first_pending r (suc k) w ≡ some n
    on miss = ground (arith, bit_test w k)

    skip : bit w k ≡ false → IsLowest w (suc k) (suc k + r) n → IsLowest w k (k + suc r) n
    skip miss l = record {
      raised = l.raised;
      from = omega (arith, l.from);
      within = omega (arith, l.within);
      lowest = λ j p q. elim (Bool-cases (j == k)) [
        | inl same ↦ rw ((==_iff j k).0 same) miss
        | inr other ↦ l.lowest j (ground arith) q
      ];
    }

first_pending-none :
    (r k w : ℕ) → first_pending r k w ≡ none → (j : ℕ) → k ≤ j → j < k + r → bit w j ≡ false
unfolding first_pending
first_pending-none zero k w h j p q = absurd (omega arith)
first_pending-none (suc r) k w h j p q = elim (Bool-cases (bit w k)) [
  | inl hit ↦ absurd (ground (arith, bit_test w k))
  | inr miss ↦ elim (Bool-cases (j == k)) [
    | inl same ↦ rw ((==_iff j k).0 same) miss
    | inr other ↦
        first_pending-none r (suc k) w (ground (arith, bit_test w k)) j (ground arith) (omega arith)
  ]
]

-- What `checkPEndingSignals` does with signal `n`.
pub record TakesLowest (wrapper : List ℕ) (m : Memory) (p : Proc) (n : ℕ) (c : Checked)
    : Type 0 where
  pub raised : bit p.pending n ≡ true
  pub in_range : n < numsig
  pub lowest : (j : ℕ) → j < n → bit p.pending j ≡ false
  pub cleared : (j : ℕ) → bit c.proc.pending j ≡ (if n == j then false else bit p.pending j)
  -- The default handler prints, or the process enters its own.
  pub outcome :
      ((get_or p.handlers n 0 ≡ 0)
        × (c.printed ≡ some (n, p.pid))
        × (c.mem ≡ m)
        × (c.proc.tf ≡ p.tf))
      ⊎ ((get_or p.handlers n 0 ≢ 0)
          × (c.printed ≡ none)
          × (c.mem ≡ push_signal wrapper m p.tf n)
          × (c.proc.tf ≡ enter_handler wrapper p.tf (get_or p.handlers n 0)))

-- The conditions under which signals are looked at.
abbrev pub IsReady : ℕ → Proc → Type 0
IsReady cs p = (p.pending ≢ 0) × (p.handling ≡ false) × (cs % 4 ≡ 3)

module _ (wrapper : List ℕ) (m : Memory) (cs : ℕ) (p : Proc) where
  handle-TakesLowest :
      (n : ℕ) → IsLowest p.pending 0 numsig n → TakesLowest wrapper m p n (handle wrapper m p n)
  unfolding handle
  handle-TakesLowest n l = record {
    raised = l.raised;
    in_range = l.within;
    lowest = λ j lt. l.lowest j (omega arith) lt;
    cleared = λ j. ground (arith, bit-bit_xor p.pending n j, l.raised);
    outcome = ground arith;
  }

  -- On the way back to user mode, with some signal pending and none marked as being handled, the
  -- lowest pending signal is taken: its bit alone is cleared, and either the default handler prints
  -- it or the process enters the handler that is set, with the pieces pushed on its stack.
  pub check_pending-TakesLowest :
      p.pending < 2 ^ 32
      → IsReady cs p
      → (n : ℕ) × TakesLowest wrapper m p n (check_pending wrapper m cs p)
  unfolding check_pending
  check_pending-TakesLowest fits (some_set, idle, user) =
      elim (Option-cases (first_pending numsig 0 p.pending)) [
        | inl e ↦ absurd (
            some_set (
              eq-zero_of_bits 32 p.pending fits
                (λ j lt. first_pending-none 32 0 p.pending e j (omega arith) lt)))
        | inr (n, e) ↦
            (n, rw (go, e) (handle-TakesLowest n (first_pending-IsLowest numsig 0 p.pending n e)))
      ]
    where
      go : (p.pending == 0 || (p.handling || not (cs % 4 == 3))) ≡ false
      go = ground arith

  -- Otherwise nothing happens.
  pub check_pending_idle :
      ¬ IsReady cs p → check_pending wrapper m cs p ≡ record { proc = p; mem = m; printed = none }
  unfolding check_pending
  check_pending_idle h = elim (Bool-cases (p.pending == 0 || (p.handling || not (cs % 4 == 3)))) [
    | inl stop ↦ rw stop
    | inr go ↦ absurd (h (ground arith))
  ]
