-- ===== src/Signal/Table.antt =====
-- `signal` and `sigsend`: handlers and the table of processes.
use os_ass.Common.{
  ℕ, ◌<◌, ◌≡◌, refl, ◌∙◌, ◌≢◌, ◌⊎◌, inl, inr, Bool, true, false, none, some, List, arith, ◌==◌,
  if◌then◌else◌, Option-cases, lt→ltb, ==_refl, length, get_elem?, get_or, set, get_or-set,
  get_elem?-modify, find_index, IsFirst, find_index-IsFirst, find_index-none,
}
use os_ass.Common.Int.{ℤ, pos, eq_nat, below, minus_one}
use os_ass.Common.Bits.{bit, bit-bit_or}
use os_ass.Proc.{Proc, numsig}
use os_ass.Signal.{no_handler, signal, raise, sigsend}

signal_ok :
    (p : Proc) (n h : ℕ)
    → n < numsig
    → signal p (pos n) h ≡ (get_or p.handlers n 0, record p { handlers = set p.handlers n h })
unfolding signal
signal_ok p n h lt = rw (lt→ltb n numsig lt, signal)

-- With a signal number in range and a full table of handlers, `signal` returns the handler that was
-- set before. From then on the signal has the new handler and every other signal the one that it
-- had, and a second call returns what the first one set.
pub signal_lem :
    (p : Proc) (n h g : ℕ)
    → n < numsig
    → length p.handlers ≡ numsig
    → let (old, q) = signal p (pos n) h in
      (old ≡ get_or p.handlers n 0)
      × ((j : ℕ) → get_or q.handlers j 0 ≡ (if n == j then h else get_or p.handlers j 0))
      × ((signal q (pos n) g).0 ≡ h)
signal_lem p n h g lt len = rw (signal_ok p n h lt) (
  refl,
  λ j. get_or-set p.handlers n j h 0 (omega arith),
  rw (signal_ok (record p { handlers = set p.handlers n h }) n g lt)
      (get_or-set p.handlers n n h 0 (omega arith) ∙ ground (arith, ==_refl n)),
)

-- Outside 0 .. 31 it returns -1 and changes nothing.
pub signal_range :
    (p : Proc) (s : ℤ) (h : ℕ) → below numsig s ≡ none → signal p s h ≡ (no_handler, p)
unfolding signal
signal_range p s h e = rw (e, signal)

abbrev pub has_pid : ℤ → Proc → Bool
has_pid pid p = eq_nat pid p.pid

-- The process at index `k` is the first with the pid.
abbrev pub IsTarget : List Proc → ℤ → ℕ → Type 0
IsTarget ps pid k = IsFirst (has_pid pid) ps k

-- What a successful `sigsend` returns and leaves, `k` the first process that has the pid.
pub record Sent (ps : List Proc) (pid : ℤ) (n k : ℕ) (out : ℤ × List Proc) : Type 0 where
  pub target : IsTarget ps pid k
  pub returned : out.0 ≡ pos 0
  pub raised : (p : Proc) → get_elem? ps k ≡ some p → get_elem? out.1 k ≡ some (raise n p)
  pub others : (j : ℕ) → j ≢ k → get_elem? out.1 j ≡ get_elem? ps j

-- For a signal number in range, `sigsend` returns 0 if some process has the pid: it marks the
-- signal pending in the first one that has it, keeps what else is pending there, and touches no
-- other process. Otherwise it returns -1 and changes nothing.
pub sigsend-Sent :
    (ps : List Proc) (pid : ℤ) (n : ℕ)
    → n < numsig
    → ((k : ℕ) × Sent ps pid n k (sigsend ps pid (pos n)))
      ⊎ ((sigsend ps pid (pos n) ≡ (minus_one, ps))
          × ((j : ℕ) (p : Proc) → get_elem? ps j ≡ some p → has_pid pid p ≡ false))
unfolding sigsend
sigsend-Sent ps pid n lt = elim (Option-cases (find_index (has_pid pid) ps)) [
  | inl e ↦ inr (rw (lt→ltb n numsig lt, e, sigsend), find_index-none (has_pid pid) ps e)
  | inr (k, e) ↦ inl (
    k,
    rw (lt→ltb n numsig lt, e, sigsend)
        (record {
          target = find_index-IsFirst (has_pid pid) ps k e;
          returned = refl;
          raised = λ p at. ground (arith, get_elem?-modify ps k k (raise n));
          others = λ j ne. ground (arith, get_elem?-modify ps k j (raise n));
        }),
  )
]

pub sigsend_range :
    (ps : List Proc) (pid s : ℤ) → below numsig s ≡ none → sigsend ps pid s ≡ (minus_one, ps)
unfolding sigsend
sigsend_range ps pid s e = rw (e, sigsend)

-- The bits of a process in which a signal was raised.
pub bit-raise :
    (p : Proc) (n j : ℕ) → bit (raise n p).pending j ≡ (if n == j then true else bit p.pending j)
bit-raise p n j = bit-bit_or p.pending n j
