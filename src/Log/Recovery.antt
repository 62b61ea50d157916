-- ===== src/Log/Recovery.antt =====
-- What a crash may leave on the disk, and what `recover_from_log` makes of it.
use mathlib.Core.Path.{subst}
use os_ass.Common.{
  ℕ, zero, suc, ◌+◌, ◌≤◌, ◌<◌, ◌≡◌, sym, ap, ◌∙◌, ◌≢◌, ◌⊎◌, inl, inr, false, List, [], ◌∷◌, arith,
  ◌==◌, Bool-cases, ==_iff, ==_refl, length, get_or,
}
use os_ass.Log.{
  Block, Blocks, put, Machine, bwrite, copy, Log, log_size, install_loop, head_block, write_head,
  initlog,
}

-- Blocks outside the log.
abbrev pub Home : Log → ℕ → Type 0
Home l b = (b < l.start) ⊎ (l.start + l.size ≤ b)

abbrev pub entry : Log → ℕ → ℕ
entry l i = get_or l.block i 0

-- The log fits its place on the disk and its entries are blocks outside it.
pub record IsLog (l : Log) : Type 0 where
  pub room : l.n < l.size
  pub small : l.n ≤ log_size
  pub entries : length l.block ≡ log_size
  pub homes : (i : ℕ) → i < l.n → Home l (entry l i)

abbrev pub Same : Log → Blocks → Blocks → Type 0
Same l d x = (b : ℕ) → Home l b → d b ≡ x b

-- Nothing is logged, and outside the log the blocks are those of `x`.
abbrev pub Idle : Log → Blocks → Blocks → Type 0
Idle l d x = (d l.start 0 ≡ 0) × Same l d x

-- Outside the log the blocks are those of `x`, but for entries from `tail` on.
abbrev pub Waiting : ℕ → Log → Blocks → Blocks → Type 0
Waiting tail l d x =
    (b : ℕ) → Home l b → (d b ≡ x b) ⊎ ((i : ℕ) × (tail ≤ i) × (i < l.n) × (entry l i ≡ b))

-- The log on the disk holds the blocks of `x` that may be missing outside it.
pub record Logged (l : Log) (d x : Blocks) : Type 0 where
  pub head : d l.start 0 ≡ l.n
  pub numbers : (i : ℕ) → i < l.n → d l.start (suc i) ≡ entry l i
  pub copies : (i : ℕ) → i < l.n → d (l.start + i + 1) ≡ x (entry l i)
  pub waiting : Waiting 0 l d x

pub put_same : (d : Blocks) (b : ℕ) (y : Block) → put d b y b ≡ y
put_same d b y = rw (==_refl b)

pub put_other : (d : Blocks) (b a : ℕ) (y : Block) → b ≢ a → put d b y a ≡ d a
put_other d b a y ne = elim (Bool-cases (b == a)) [
  | inl e ↦ absurd (ne ((==_iff b a).0 e))
  | inr e ↦ rw e
]

pub Logged-put :
    (l : Log) (d x : Blocks) (b : ℕ)
    → IsLog l
    → Home l b
    → Logged l d x
    → Logged l (put d b (x b)) x
Logged-put l d x b w h g = record {
  head =
      ap (λ (y : Block). y 0) (put_other d b l.start (x b) (away 0 (omega (arith, w.room))))
      ∙ g.head;
  numbers = λ i p.
      ap (λ (y : Block). y (suc i)) (put_other d b l.start (x b) (away 0 (omega (arith, w.room))))
      ∙ g.numbers i p;
  copies = λ i p. put_other d b (l.start + i + 1) (x b) (above i p) ∙ g.copies i p;
  waiting = λ a ha. elim (Bool-cases (b == a)) [
    | inl e ↦ inl (rw e (ap x ((==_iff b a).0 e)))
    | inr e ↦ rw e (g.waiting a ha)
  ];
}
  where
    away : (i : ℕ) → i < l.size → b ≢ l.start
    away i p = omega (arith, h)

    above : (i : ℕ) → i < l.n → b ≢ l.start + i + 1
    above i p = omega (arith, h, w.room)

-- All disks of the past.
abbrev pub All : (Blocks → Type 0) → List Blocks → Type 0
All P [] = Unit
All P (d ∷ ds) = P d × All P ds

pub All-map :
    (P Q : Blocks → Type 0) (ds : List Blocks) → ((d : Blocks) → P d → Q d) → All P ds → All Q ds
All-map P Q [] f a = tt
All-map P Q (d ∷ ds) f (p, a) = (f d p, All-map P Q ds f a)

-- The state of `install_trans` before entry `tail`, with `P` for the disks of the past.
pub record Installing (P : Blocks → Type 0) (l : Log) (x : Blocks) (tail : ℕ) (m : Machine)
    : Type 0 where
  pub cached : (i : ℕ) → i < l.n → m.cache (l.start + i + 1) ≡ x (entry l i)
  pub logged : Logged l m.disk x
  pub waiting : Waiting tail l m.disk x
  pub before : All P m.past

module _ (P : Blocks → Type 0) (l : Log) (x : Blocks) (w : IsLog l)
    (keep : (d : Blocks) → Logged l d x → P d) where
  abbrev install_one : ℕ → Machine → Machine
  install_one tail m = bwrite (copy m (entry l tail) (l.start + tail + 1)) (entry l tail)

  install_step :
      (tail : ℕ) (m : Machine)
      → tail < l.n
      → Installing P l x tail m
      → Installing P l x (suc tail) (install_one tail m)
  install_step tail m p s = record {
    cached = λ i q.
        put_other m.cache (entry l tail) (l.start + i + 1) (m.cache (l.start + tail + 1))
          (omega (arith, w.homes tail p, w.room))
        ∙ s.cached i q;
    logged =
        subst (λ y. Logged l (put m.disk (entry l tail) y) x) (sym written)
          (Logged-put l m.disk x (entry l tail) w (w.homes tail p) s.logged);
    waiting = subst (λ y. Waiting (suc tail) l (put m.disk (entry l tail) y) x) (sym written) next;
    before = (keep m.disk s.logged, s.before);
  }
    where
      written :
          put m.cache (entry l tail) (m.cache (l.start + tail + 1)) (entry l tail)
          ≡ x (entry l tail)
      written = put_same m.cache (entry l tail) (m.cache (l.start + tail + 1)) ∙ s.cached tail p

      next : Waiting (suc tail) l (put m.disk (entry l tail) (x (entry l tail))) x
      next b h = elim (Bool-cases (entry l tail == b)) [
        | inl e ↦ inl (rw e (ap x ((==_iff (entry l tail) b).0 e)))
        | inr e ↦ rw e (elim (s.waiting b h) [
          | inl same ↦ inl same
          | inr (i, from, lt, at) ↦ inr (i, later i from at e, lt, at)
        ])
      ]
        where
          later : (i : ℕ) → tail ≤ i → entry l i ≡ b → (entry l tail == b) ≡ false → suc tail ≤ i
          later i from at e = elim (Bool-cases (tail == i)) [
            | inl same ↦ absurd (ground (arith, rw (sym ((==_iff tail i).0 same)) at at))
            | inr differ ↦ ground arith
          ]

  pub install_loop-Installing :
      (r tail : ℕ) (m : Machine)
      → tail + r ≡ l.n
      → Installing P l x tail m
      → Installing P l x l.n (install_loop l r tail m)
  install_loop-Installing zero tail m e s = subst (λ t. Installing P l x t m) (omega arith ∙ e) s
  install_loop-Installing (suc r) tail m e s =
      install_loop-Installing r (suc tail) (install_one tail m) (omega arith)
        (install_step tail m (omega arith) s)

-- Once no entry waits, all is installed.
pub Waiting-Same : (l : Log) (d x : Blocks) → Waiting l.n l d x → Same l d x
Waiting-Same l d x w b h = elim (w b h) [
  | inl same ↦ same
  | inr (i, from, lt, at) ↦ absurd (omega arith)
]

pub write_head_lem :
    (l : Log) (m : Machine)
    → (write_head l m).disk ≡ put m.disk l.start (head_block l (m.cache l.start))
unfolding write_head
write_head_lem l m =
    ap (put m.disk l.start) (put_same m.cache l.start (head_block l (m.cache l.start)))

-- Writing a header that counts 0 leaves no log.
pub write_head-Idle :
    (l : Log) (m : Machine) (x : Blocks)
    → 0 < l.size
    → l.n ≡ 0
    → Same l m.disk x
    → Idle l (write_head l m).disk x
write_head-Idle l m x p e same = rw (write_head_lem l m) (
  ap (λ (y : Block). y 0) (put_same m.disk l.start (head_block l (m.cache l.start))) ∙ e,
  λ b h. put_other m.disk l.start b (head_block l (m.cache l.start)) (omega (arith, h)) ∙ same b h,
)

-- What a crash may leave while the blocks `x` are the ones to come back to.
abbrev pub Good : Log → Blocks → Blocks → Type 0
Good l x d = Idle l d x ⊎ Logged l d x

-- A machine that starts on a disk.
abbrev pub boot : Blocks → Machine
boot d = record { cache = d; disk = d; past = [] }

abbrev pub recover : Log → Blocks → Machine
recover l d = (initlog l.start l.size (boot d)).1

-- What recovery has to reach, and what another crash on the way may leave.
pub record Recovered (l : Log) (x : Blocks) (m : Machine) : Type 0 where
  pub idle : Idle l m.disk x
  pub before : All (Good l x) m.past
