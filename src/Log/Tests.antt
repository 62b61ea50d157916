-- ===== src/Log/Tests.antt =====
-- The log at concrete inputs: a transaction of two blocks, 40 and 41, in a log of 31 blocks.
use os_ass.Common.{
  ℕ, zero, suc, ◌<◌, ◌≡◌, refl, ◌⊎◌, inl, inr, false, [], ◌∷◌, arith, ◌==◌, Bool-cases, ==_iff,
  replicate, done, ◌+◌, ◌≤◌, get_or,
}
use os_ass.Common.{panic, Bool, true, ◌||◌, set}
use os_ass.Log.Reserve.{Run, started, then_step, begins, writes, Run-log_write}
use os_ass.Log.{
  Blocks, put, Machine, Log, write_head, write_log, recover_from_log, read_head, install_trans,
  commit, log_write, begin_op,
}
use os_ass.Log.Recovery.{Home, entry, IsLog, All, recover, Idle, Good}
use os_ass.Log.Commit.{IsClean}
use os_ass.Log.Atomic.{Atomic, commit-Atomic, untouched, restarted, Restarts-recover}
use os_ass.Log.Write.{log_write-IsClean}

abbrev two : Log
two = record {
  start = 2;
  size = 31;
  outstanding = 1;
  committing = false;
  n = 2;
  block = 40 ∷ 41 ∷ replicate 28 0;
}

abbrev old : Blocks
old b w = 0

abbrev new : Blocks
new = put (put old 40 (λ w. 7)) 41 (λ w. 8)

abbrev machine : Machine
machine = record { cache = new; disk = old; past = [] }

two_homes : (i : ℕ) → i < 2 → Home two (entry two i)
two_homes zero p = inr (omega arith)
two_homes (suc zero) p = inr (omega arith)
two_homes (suc (suc i)) p = absurd (omega arith)

two-IsLog : IsLog two
two-IsLog = record { room = omega arith; small = omega arith; entries = refl; homes = two_homes }

machine-IsClean : IsClean two machine
machine-IsClean = (
  refl,
  λ b h. elim (Bool-cases (41 == b)) [
    | inl e ↦ inr (1, omega arith, omega arith, (==_iff 41 b).0 e)
    | inr e ↦ elim (Bool-cases (40 == b)) [
      | inl f ↦ inr (0, omega arith, omega arith, (==_iff 40 b).0 f)
      | inr f ↦ inl (rw (e, f) refl)
    ]
  ],
)

commit-Atomic_example :
    All (Atomic two old new) ((commit two machine).1.disk ∷ (commit two machine).1.past)
commit-Atomic_example = commit-Atomic two machine two-IsLog machine-IsClean refl

-- The whole log of the transaction on the disk, before any block is installed.
abbrev logged : Blocks
logged = (write_head two (write_log two machine)).disk

logged-Good : Good two new logged
unfolding write_head write_log
logged-Good = inr record {
  head = refl;
  numbers = numbers;
  copies = copies;
  waiting = λ b h. elim (Bool-cases (41 == b)) [
    | inl e ↦ inr (1, omega arith, omega arith, (==_iff 41 b).0 e)
    | inr e ↦ elim (Bool-cases (40 == b)) [
      | inl f ↦ inr (0, omega arith, omega arith, (==_iff 40 b).0 f)
      | inr f ↦ inl (
          rw
            (
              e,
              f,
              other 2 b h (omega arith) (omega arith),
              other 3 b h (omega arith) (omega arith),
              other 4 b h (omega arith) (omega arith),
            )
            refl)
    ]
  ];
}
  where
    other : (a b : ℕ) → Home two b → 2 ≤ a → a < 33 → (a == b) ≡ false
    other a b h lo hi = ground (arith, h)

    numbers : (i : ℕ) → i < 2 → logged 2 (suc i) ≡ entry two i
    numbers zero p = refl
    numbers (suc zero) p = refl
    numbers (suc (suc i)) p = absurd (omega arith)

    copies : (i : ℕ) → i < 2 → logged (2 + i + 1) ≡ new (entry two i)
    copies zero p = refl
    copies (suc zero) p = refl
    copies (suc (suc i)) p = absurd (omega arith)

-- The first recovery is cut short when one of its two blocks has been installed.
abbrev half_installed : Blocks
half_installed = get_or (recover two logged).past 1 old

Restarts-recover_example : Idle two (recover two half_installed).disk new
unfolding write_head write_log recover_from_log read_head install_trans
Restarts-recover_example =
    Restarts-recover two new logged half_installed two-IsLog logged-Good
      (restarted untouched (inr (inr (inl refl))))

abbrev two_dirty : ℕ → Bool
two_dirty b = b == 40 || b == 41

two-Pinned : (k : ℕ) → k < 2 → two_dirty (entry two k) ≡ true
two-Pinned zero p = refl
two-Pinned (suc zero) p = refl
two-Pinned (suc (suc k)) p = absurd (omega arith)

log_write-IsClean_example :
    (l' : Log) × (dirty' : ℕ → Bool) × (log_write two two_dirty 50 ≡ done (l', dirty'))
    × IsLog l'
    × IsClean l' (record machine { cache = put new 50 (λ w. 9) })
    × ((k : ℕ) → k < l'.n → dirty' (entry l' k) ≡ true)
    × ((l'.n ≡ 2) ⊎ ((l'.n ≡ 3) × ((k : ℕ) → k < 2 → (entry two k == 50) ≡ false)))
log_write-IsClean_example =
    log_write-IsClean two machine 50 (λ w. 9) two_dirty two-IsLog machine-IsClean
      (inr (omega arith)) (omega arith) (omega arith) (omega arith) two-Pinned

-- The log of mkfs: LOGSIZE blocks, the header's included.
abbrev made : Log
made = record {
  start = 2;
  size = 30;
  outstanding = 0;
  committing = false;
  n = 0;
  block = replicate 30 0;
}

abbrev clean : ℕ → Bool
clean b = false

-- One operation has begun and written block 40, twice.
abbrev made_written : Log
made_written = record made { outstanding = 1; n = 1; block = set (replicate 30 0) 0 40 }

written_twice : Run made [] made_written ((40 ∷ []) ∷ [])
unfolding begin_op log_write
written_twice =
    then_step
      (then_step (then_step started (begins refl refl))
        (writes [] [] [] clean (λ a. 40 == a || false) 40 refl refl (omega arith) refl))
      (writes [] (40 ∷ []) [] (λ a. 40 == a || false) (λ a. 40 == a || (40 == a || false)) 40 refl
        refl (omega arith) refl)

Run-log_write_example :
    (l'' : Log) × (dirty' : ℕ → Bool) × (log_write made_written clean 41 ≡ done (l'', dirty'))
Run-log_write_example =
    Run-log_write made made_written [] (40 ∷ []) [] clean 41 refl refl (omega arith) refl
      written_twice

-- The last write of three operations that each write as many blocks as MAXOPBLOCKS allows does not
-- find room.
full_of_three :
    log_write (record made { outstanding = 3; n = 29 }) clean 100 ≡ panic "too big a transaction"
unfolding log_write
full_of_three = refl
