-- ===== src/Fs/Blocks/Alloc.antt =====
-- What `balloc` and `bfree` do to the set of blocks in use.
use mathlib.Core.Path.{subst}
use os_ass.Common.Memory.{Memory}
use os_ass.Fs.{Fs, Blocks, bpb, put_block, update, readsb}
use os_ass.Fs.Blocks.{bzero, bblock, is_clear, set_bit, clear_bit, scan_map, balloc, bfree}
use os_ass.Fs.Blocks.Scan.{UsedFrom, FirstFree, scan_map-some, scan_map-none}
use os_ass.Fs.Blocks.Bitmap.{bit_of, used, is_clear_lem, bit_of-set_bit, bit_of-clear_bit}
use os_ass.Common.{
  ℕ, ◌+◌, ◌*◌, ◌/◌, ◌%◌, ◌<◌, ◌≡◌, refl, sym, ap, ◌∙◌, ◌≢◌, ◌⊎◌, inl, inr, Bool, true, false, ◌∷◌,
  arith, ◌==◌, if◌then◌else◌, Bool-cases, Option-cases, ==_iff, ==_refl, done, panic,
}

-- The blocks of the map are in use themselves.
abbrev pub IsReserved : Fs → Type 0
IsReserved s = (j : ℕ) → j < s.sb.size → (bblock s j < s.sb.size) × (used s (bblock s j) ≡ true)

-- What `balloc` makes of `s` when it hands out block `c`.
pub record Allocated (s : Fs) (c : ℕ) (s' : Fs) : Type 0 where
  pub inside : c < s.sb.size
  pub free : used s c ≡ false
  pub lowest : UsedFrom s 0 c
  pub now : (j : ℕ) → j < s.sb.size → used s' j ≡ (if c == j then true else used s j)
  pub zeroed : (x : ℕ) → x < 512 → s'.blocks c x ≡ 0
  pub others : (a : ℕ) → a ≢ c → a ≢ bblock s c → s'.blocks a ≡ s.blocks a
  pub same : s'.sb ≡ s.sb
  pub logged : s'.logged ≡ c ∷ bblock s c ∷ s.logged

pub put_block_same : (d : Blocks) (b : ℕ) (m : Memory) → put_block d b m b ≡ m
put_block_same d b m = rw (==_refl b) refl

pub put_block_other : (d : Blocks) (b a : ℕ) (m : Memory) → a ≢ b → put_block d b m a ≡ d a
put_block_other d b a m ne = ground arith

-- A changed bit in the map is a change for one block.
used-mark :
    (s : Fs) (c : ℕ) (f : Memory → Memory) (v : Bool)
    → ((j : ℕ)
        → bit_of (f (s.blocks (bblock s c))) j
          ≡ (if c % bpb == j then v else bit_of (s.blocks (bblock s c)) j))
    → (j : ℕ) → used (update (bblock s c) f s) j ≡ (if c == j then v else used s j)
used-mark s c f v h j = elim (Bool-cases (bblock s c == bblock s j)) [
  | inl same ↦
      let e : bblock s c ≡ bblock s j = (==_iff (bblock s c) (bblock s j)).0 same in
      rw same (h (j % bpb) ∙ rw e (one e))
  | inr other ↦ rw (other, differ other) refl
]
  where
    one :
        bblock s c ≡ bblock s j
        → (if c % bpb == j % bpb then v else bit_of (s.blocks (bblock s j)) (j % bpb))
          ≡ (if c == j then v else used s j)
    one e = let q : (c % bpb == j % bpb) ≡ (c == j) = ground arith in rw q refl

    differ : (bblock s c == bblock s j) ≡ false → (c == j) ≡ false
    differ other = ground arith

balloc-some :
    (s : Fs) (c : ℕ)
    → IsReserved s
    → FirstFree s 0 c
    → Allocated s c (bzero c (update (bblock s c) (set_bit (c % bpb)) s))
unfolding bzero
balloc-some s c reserved f = record {
  inside = f.inside;
  free = f.free;
  lowest = f.before;
  now = λ j h.
      ap (λ m. bit_of m (j % bpb))
        (put_block_other (update (bblock s c) (set_bit (c % bpb)) s).blocks c (bblock s j) _
          (apart j h))
      ∙ used-mark s c (set_bit (c % bpb)) true
          (λ i. bit_of-set_bit (s.blocks (bblock s c)) (c % bpb) i) j;
  zeroed = λ x h.
      ap (λ (m : Memory). m x)
        (put_block_same (update (bblock s c) (set_bit (c % bpb)) s).blocks c _)
      ∙ ground arith;
  others = λ a ne ne'.
      put_block_other (update (bblock s c) (set_bit (c % bpb)) s).blocks c a _ ne
      ∙ put_block_other s.blocks (bblock s c) a _ ne';
  same = refl;
  logged = refl;
}
  where
    apart : (j : ℕ) → j < s.sb.size → bblock s j ≢ c
    apart j h e = absurd (cc (subst (λ k. used s k ≡ true) e (reserved j h).1, f.free))

-- With the map's own blocks in use, `balloc` hands out the lowest block that is not in use, filled
-- with zeros, and marks it alone as in use; no block but that one and its block of the map changes.
-- It panics only if every block is in use.
pub balloc-Allocated :
    (s : Fs)
    → IsReserved s
    → ((c : ℕ) × (s' : Fs) × (balloc s ≡ done (c, s')) × Allocated s c s')
      ⊎ ((balloc s ≡ panic "balloc: out of blocks") × ((j : ℕ) → j < s.sb.size → used s j ≡ true))
unfolding balloc
balloc-Allocated s reserved = elim (Option-cases (scan_map (s.sb.size / bpb + 1) 0 s)) [
  | inl all_used ↦ inr (
    rw (balloc, all_used) refl,
    λ j h.
        scan_map-none (s.sb.size / bpb + 1) 0 s (rw zeros all_used) j (omega arith) (omega arith) h,
  )
  | inr ((b, i), found) ↦
      let (same, at, f) = scan_map-some (s.sb.size / bpb + 1) 0 s b i (rw zeros found) in
      inl (
        b + i,
        bzero (b + i) (update (bblock s b) (set_bit i) s),
        rw (balloc, found) refl,
        subst (λ k. Allocated s (b + i) (bzero (b + i) (update k (set_bit i) s))) (sym same)
            (subst
              (λ k. Allocated s (b + i) (bzero (b + i) (update (bblock s (b + i)) (set_bit k) s)))
              (sym at) (balloc-some s (b + i) reserved f)),
      )
]
  where
    zeros : 0 * bpb ≡ 0
    zeros = refl

-- What `bfree` makes of `s` when it takes block `b` back.
pub record Freed (s : Fs) (b : ℕ) (s' : Fs) : Type 0 where
  pub now : (j : ℕ) → used s' j ≡ (if b == j then false else used s j)
  pub others : (a : ℕ) → a ≢ bblock s b → s'.blocks a ≡ s.blocks a
  pub same : s'.sb ≡ s.sb
  pub logged : s'.logged ≡ bblock s b ∷ s.logged

-- `bfree` of a block in use, while the superblock in memory is that of the disk, marks it alone as not
-- in use and changes no block but its block of the map; of a block that is not in use, it panics.
pub bfree-Freed :
    (s : Fs) (b : ℕ)
    → readsb s.blocks ≡ s.sb
    → ((s' : Fs) × (used s b ≡ true) × (bfree s b ≡ done s') × Freed s b s')
      ⊎ ((used s b ≡ false) × (bfree s b ≡ panic "freeing free block"))
unfolding bfree
bfree-Freed s b e = elim (Bool-cases (used s b)) [
  | inl held ↦ inl (
    update (bblock s b) (clear_bit (b % bpb)) s,
    held,
    rw (bfree, e, shut held) refl,
    record {
      now =
          used-mark s b (clear_bit (b % bpb)) false
            (λ i. bit_of-clear_bit (s.blocks (bblock s b)) (b % bpb) i);
      others = λ a ne. put_block_other s.blocks (bblock s b) a _ ne;
      same = refl;
      logged = refl;
    },
  )
  | inr loose ↦ inr (loose, rw (bfree, e, open_bit loose) refl)
]
  where
    shut : used s b ≡ true → is_clear (s.blocks (bblock s b)) (b % bpb) ≡ false
    shut held = is_clear_lem (s.blocks (bblock s b)) (b % bpb) ∙ rw held refl

    open_bit : used s b ≡ false → is_clear (s.blocks (bblock s b)) (b % bpb) ≡ true
    open_bit loose = is_clear_lem (s.blocks (bblock s b)) (b % bpb) ∙ rw loose refl
