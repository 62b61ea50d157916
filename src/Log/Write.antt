-- ===== src/Log/Write.antt =====
-- `begin_op`, `log_write` and what they keep true between commits.
use mathlib.Core.Path.{subst}
use os_ass.Common.{
  ℕ, zero, suc, ◌+◌, ◌-◌, ◌||◌, Bool, true, leb, ltb, ◌≤◌, ◌<◌, ◌≡◌, refl, sym, ap, ◌∙◌, ◌⊎◌, inl,
  inr, false, List, arith, ◌==◌, if◌then◌else◌, Bool-cases, ==_iff, ==_refl, get_or, set,
  length-set, get_or-set, done,
}
use os_ass.Log.{Block, put, Machine, Log, log_size, find_entry, log_write}
use os_ass.Log.Recovery.{Home, entry, IsLog, Waiting}
use os_ass.Log.Commit.{IsClean}

-- What the search of `log_write` finds.
pub record FoundEntry (r i b : ℕ) (block : List ℕ) (j : ℕ) : Type 0 where
  pub from : i ≤ j
  pub upto : j ≤ i + r
  pub hit : (j ≡ i + r) ⊎ (get_or block j 0 ≡ b)
  pub missed : (k : ℕ) → i ≤ k → k < j → (get_or block k 0 == b) ≡ false

pub find_entry-FoundEntry :
    (r i b : ℕ) (block : List ℕ) → FoundEntry r i b block (find_entry r i b block)
find_entry-FoundEntry zero i b block = record {
  from = omega arith;
  upto = omega arith;
  hit = inl (omega arith);
  missed = λ k p q. absurd (omega arith);
}
find_entry-FoundEntry (suc r) i b block = elim (Bool-cases (get_or block i 0 == b)) [
  | inl here ↦ rw here record {
    from = omega arith;
    upto = omega arith;
    hit = inr ((==_iff (get_or block i 0) b).0 here);
    missed = λ k p q. absurd (omega arith);
  }
  | inr other ↦ rw other (later other (find_entry-FoundEntry r (suc i) b block))
]
  where
    later :
        (get_or block i 0 == b) ≡ false
        → FoundEntry r (suc i) b block (find_entry r (suc i) b block)
        → FoundEntry (suc r) i b block (find_entry r (suc i) b block)
    later other f = record {
      from = omega (arith, f.from);
      upto = omega (arith, f.upto);
      hit = elim f.hit [ inl e ↦ inl (omega arith) | inr e ↦ inr e ];
      missed = λ k p q. elim (Bool-cases (i == k)) [
        | inl e ↦ subst (λ k. (get_or block k 0 == b) ≡ false) ((==_iff i k).0 e) other
        | inr e ↦ f.missed k (ground arith) q
      ];
    }

-- The buffers of all entries are dirty.
abbrev pub Pinned : Log → (ℕ → Bool) → Type 0
Pinned l dirty = (k : ℕ) → k < l.n → dirty (entry l k) ≡ true

or_true : (x : Bool) → (x || true) ≡ true
or_true x = ground arith

leb_gt : (a b : ℕ) → b < a → leb a b ≡ false
leb_gt a b lt = ground arith

ltb_le : (a b : ℕ) → b ≤ a → ltb a b ≡ false
ltb_le a b le = ground arith

module _ (l : Log) (m : Machine) (b : ℕ) (y : Block) where
  abbrev logged : Log
  logged =
      let i = find_entry l.n 0 b l.block in
      record l { block = set l.block i b; n = if i == l.n then l.n + 1 else l.n }

  find : FoundEntry l.n 0 b l.block (find_entry l.n 0 b l.block)
  find = find_entry-FoundEntry l.n 0 b l.block

  abbrev spot : ℕ
  spot = find_entry l.n 0 b l.block

  count :
      (spot < logged.n)
      × (l.n ≤ logged.n)
      × ((k : ℕ) → k < logged.n → (spot == k) ≡ false → k < l.n)
  count = elim (Bool-cases (spot == l.n)) [
    | inl e ↦ rw e (ground arith, omega arith, λ k p q. ground arith)
    | inr e ↦ rw e (ground (arith, find.upto), omega arith, λ k p q. p)
  ]

  entry-logged :
      IsLog l → l.n < log_size → (k : ℕ) → entry logged k ≡ (if spot == k then b else entry l k)
  entry-logged w small k = get_or-set l.block spot k b 0 (omega (arith, find.upto, w.entries))

  logged-IsLog : IsLog l → Home l b → l.n < log_size → suc l.n < l.size → IsLog logged
  logged-IsLog w h small room = record {
    room = ground arith;
    small = ground arith;
    entries = length-set l.block spot b ∙ w.entries;
    homes = λ k p. rw (entry-logged w small k) (elim (Bool-cases (spot == k)) [
      | inl e ↦ rw e h
      | inr e ↦ rw e (w.homes k (count.2 k p e))
    ]);
  }

  logged-Waiting :
      IsLog l
      → l.n < log_size
      → Waiting 0 l m.disk m.cache
      → Waiting 0 logged m.disk (put m.cache b y)
  logged-Waiting w small wait a ha = elim (Bool-cases (b == a)) [
    | inl e ↦ inr (
      spot,
      omega arith,
      count.0,
      entry-logged w small spot ∙ rw (==_refl spot) ((==_iff b a).0 e),
    )
    | inr e ↦ elim (wait a ha) [
      | inl same ↦ inl (rw e same)
      | inr (i, from, lt, at) ↦ elim (Bool-cases (spot == i)) [
        | inl here ↦ absurd (elim find.hit [
          | inl last ↦ ground (arith, last)
          | inr hit ↦ ground (arith, sym hit, at, ap (entry l) ((==_iff spot i).0 here))
        ])
        | inr other ↦ inr (i, from, omega (arith, count.1), entry-logged w small i ∙ rw other at)
      ]
    ]
  ]

  logged-Pinned :
      (dirty : ℕ → Bool)
      → IsLog l
      → l.n < log_size
      → Pinned l dirty
      → Pinned logged (λ a. b == a || dirty a)
  logged-Pinned dirty w small pinned k lt = elim (Bool-cases (spot == k)) [
    | inl e ↦ rw (entry-logged w small k, e, ==_refl b)
    | inr e ↦ rw (entry-logged w small k, e, pinned k (count.2 k lt e)) (or_true (b == entry l k))
  ]

  -- A write outside the log, recorded by `log_write` while there is room, leaves the log and the
  -- buffers fit for `commit`: no panic, no entry is made for a block that has one, and if the
  -- buffers of all entries were dirty before, so are they afterwards.
  pub log_write-IsClean :
      (dirty : ℕ → Bool)
      → IsLog l
      → IsClean l m
      → Home l b
      → l.n < log_size
      → suc l.n < l.size
      → 0 < l.outstanding
      → Pinned l dirty
      → (l' : Log) × (dirty' : ℕ → Bool) × (log_write l dirty b ≡ done (l', dirty'))
        × IsLog l'
        × IsClean l' (record m { cache = put m.cache b y })
        × Pinned l' dirty'
        × ((l'.n ≡ l.n) ⊎ ((l'.n ≡ l.n + 1) × ((k : ℕ) → k < l.n → (entry l k == b) ≡ false)))
  unfolding log_write
  log_write-IsClean dirty w clean h small room inside pinned = (
    logged,
    λ a. b == a || dirty a,
    rw
        (
          leb_gt log_size l.n small,
          leb_gt (l.size - 1) l.n (omega arith),
          ltb_le l.outstanding 1 inside,
          log_write,
        )
        refl,
    logged-IsLog w h small room,
    (clean.0, logged-Waiting w small clean.1),
    logged-Pinned dirty w small pinned,
    absorbed,
  )
    where
      absorbed :
          (logged.n ≡ l.n) ⊎ ((logged.n ≡ l.n + 1) × ((k : ℕ) → k < l.n → (entry l k == b) ≡ false))
      absorbed = elim (Bool-cases (spot == l.n)) [
        | inl e ↦ rw e (inr (refl, λ k p. find.missed k (omega arith) (ground arith)))
        | inr e ↦ rw e (inl refl)
      ]
