-- ===== src/Kalloc/Range.antt =====
-- `freerange`: which pages it frees.
use os_ass.Common.{
  ℕ, zero, suc, ◌+◌, ◌-◌, ◌*◌, ◌/◌, ◌%◌, ◌^◌, ◌≤◌, ◌<◌, ◌≡◌, refl, ◌∙◌, true, false, some, List, [],
  ◌∷◌, arith, done,
}
use os_ass.Kalloc.{
  Kmem, pg_size, phys_top, pg_round_up, bad_page, freerange_loop, freerange, kern_base, kinit1,
  kinit2,
}
use os_ass.Kalloc.Chain.{has, IsFree, kfree-IsFree}

-- The whole pages from `p` on, `n` of them, the last one first.
unfoldable pub pages : ℕ → ℕ → List ℕ → List ℕ
pages p zero xs = xs
pages p (suc n) xs = pages (p + pg_size) n (p ∷ xs)

module _ (end : ℕ) where
  -- No page of `n` from `p` on is free yet, and `kfree` accepts them all.
  abbrev pub IsNew : ℕ → ℕ → List ℕ → Type 0
  IsNew p zero xs = Unit
  IsNew p (suc n) xs =
      (bad_page end p ≡ false) × (has p xs ≡ false) × IsNew (p + pg_size) n (p ∷ xs)

  freerange_loop-IsFree :
      (f n : ℕ) (k : Kmem) (p vend : ℕ) (xs : List ℕ)
      → n < f
      → p + n * pg_size ≤ vend
      → vend < p + (n + 1) * pg_size
      → IsFree end k xs
      → IsNew p n xs
      → (k' : Kmem) × (freerange_loop end f k p vend ≡ some (done k'))
        × IsFree end k' (pages p n xs)
        × (k'.use_lock ≡ k.use_lock)
  unfolding freerange_loop pages
  freerange_loop-IsFree zero n k p vend xs lt lo hi free new = absurd (omega arith)
  freerange_loop-IsFree (suc f) zero k p vend xs lt lo hi free new = (k, ground arith, free, refl)
  freerange_loop-IsFree (suc f) (suc n) k p vend xs lt lo hi free (ok, out, new) =
      let (k', e, free', same) = kfree-IsFree end k p xs free out ok in
      let (k'', e', free'', same') =
        freerange_loop-IsFree f n k' (p + pg_size) vend (p ∷ xs) (omega arith) (omega arith)
          (omega arith) free' new in
      (k'', ground (arith, e, e'), free'', same' ∙ same)

-- Every page of the list lies below `p`.
abbrev pub AllBelow : ℕ → List ℕ → Type 0
AllBelow p [] = Unit
AllBelow p (x ∷ xs) = (x < p) × AllBelow p xs

AllBelow-mono : (p q : ℕ) (xs : List ℕ) → p ≤ q → AllBelow p xs → AllBelow q xs
AllBelow-mono p q [] h b = tt
AllBelow-mono p q (x ∷ xs) h (lt, b) = (omega arith, AllBelow-mono p q xs h b)

not-has_of_below : (p : ℕ) (xs : List ℕ) → AllBelow p xs → has p xs ≡ false
not-has_of_below p [] b = refl
not-has_of_below p (x ∷ xs) (lt, b) = ground (arith, not-has_of_below p xs b)

AllBelow-pages : (p n : ℕ) (xs : List ℕ) → AllBelow p xs → AllBelow (p + n * pg_size) (pages p n xs)
unfolding pages
AllBelow-pages p zero xs b = AllBelow-mono p (p + zero) xs (omega arith) b
AllBelow-pages p (suc n) xs b =
    AllBelow-mono (p + pg_size + n * pg_size) (p + suc n * pg_size) (pages (p + pg_size) n (p ∷ xs))
      (omega arith)
      (AllBelow-pages (p + pg_size) n (p ∷ xs)
        (omega arith, AllBelow-mono p (p + pg_size) xs (omega arith) b))

-- The end of physical memory, as a kernel address.
abbrev pub top : ℕ
top = kern_base + phys_top

in_memory :
    (end p : ℕ) → kern_base ≤ end → end ≤ p → p % pg_size ≡ 0 → p < top → bad_page end p ≡ false
in_memory end p low e al hi = ground arith

IsNew-pages_below :
    (end p n : ℕ) (xs : List ℕ)
    → kern_base ≤ end
    → end ≤ p
    → p % pg_size ≡ 0
    → p + n * pg_size ≤ top
    → AllBelow p xs
    → IsNew end p n xs
IsNew-pages_below end p zero xs low e al hi b = tt
IsNew-pages_below end p (suc n) xs low e al hi b = (
  in_memory end p low e al (omega arith),
  not-has_of_below p xs b,
  IsNew-pages_below end (p + pg_size) n (p ∷ xs) low (omega arith) (omega arith) (omega arith)
      (omega arith, AllBelow-mono p (p + pg_size) xs (omega arith) b),
)

-- How many whole pages fit between an address and the end of a range.
abbrev pub page_count : ℕ → ℕ → ℕ
page_count vstart vend = (vend - pg_round_up vstart) / pg_size

-- The address that the rounding gives: a page boundary, less than a page further on.
pub pg_round_up_bounds :
    (a : ℕ)
    → a + pg_size ≤ 2 ^ 32
    → (a ≤ pg_round_up a) × (pg_round_up a < a + pg_size) × (pg_round_up a % pg_size ≡ 0)
pg_round_up_bounds a h = omega arith

module _ (end : ℕ) (low : kern_base ≤ end) where
  -- Over a range inside memory, with every free page below its start, `freerange` ends without a
  -- panic, and frees exactly the whole pages of the range, in front of those that were free.
  pub freerange-IsFree :
      (k : Kmem) (vstart vend : ℕ) (xs : List ℕ)
      → end ≤ vstart
      → vstart ≤ vend
      → pg_round_up vstart ≤ vend
      → vend ≤ top
      → IsFree end k xs
      → AllBelow (pg_round_up vstart) xs
      → (k' : Kmem) × (freerange end k vstart vend ≡ some (done k'))
        × IsFree end k' (pages (pg_round_up vstart) (page_count vstart vend) xs)
        × (k'.use_lock ≡ k.use_lock)
  unfolding freerange
  freerange-IsFree k vstart vend xs e ord fits hi free b =
      freerange_loop-IsFree end (vend / pg_size + 1) n k p vend xs (omega arith) (omega arith)
        (omega arith) free
        (IsNew-pages_below end p n xs low (omega (arith, pg_round_up_bounds vstart (omega arith)))
          (omega arith) (omega arith) b)
    where
      p : ℕ
      p = pg_round_up vstart

      n : ℕ
      n = page_count vstart vend

  -- The two calls of `main`: from an empty list, over two ranges that follow one another inside
  -- memory and above the end of the kernel, each long enough to reach a page boundary, both calls
  -- end without a panic; the free pages are exactly the whole pages of the two ranges, and the lock
  -- is taken from then on.
  pub kinit-IsFree :
      (k : Kmem) (vstart mid vend : ℕ)
      → k.freelist ≡ 0
      → end ≤ vstart
      → vstart ≤ mid
      → mid ≤ vend
      → pg_round_up vstart ≤ mid
      → pg_round_up mid ≤ vend
      → vend ≤ top
      → (k₁ k₂ : Kmem) × (kinit1 end k vstart mid ≡ some (done k₁))
        × (kinit2 end k₁ mid vend ≡ some (done k₂))
        × IsFree end k₂ (
            pages
              (pg_round_up mid)
              (page_count mid vend)
              (pages (pg_round_up vstart) (page_count vstart mid) []))
        × (k₂.use_lock ≡ true)
  unfolding kinit1 kinit2
  kinit-IsFree k vstart mid vend empty e o o' fits fits' hi =
      let (k₁, e₁, free₁, _) =
        freerange-IsFree (record k { use_lock = false }) vstart mid [] e o fits (omega arith) empty
          tt in
      let (k₂, e₂, free₂, _) =
        freerange-IsFree k₁ mid vend (pages (pg_round_up vstart) (page_count vstart mid) [])
          (omega arith) o' fits' hi free₁
          (AllBelow-mono (pg_round_up vstart + page_count vstart mid * pg_size) (pg_round_up mid)
            (pages (pg_round_up vstart) (page_count vstart mid) [])
            (omega (arith, pg_round_up_bounds mid (omega arith)))
            (AllBelow-pages (pg_round_up vstart) (page_count vstart mid) [] tt)) in
      (k₁, record k₂ { use_lock = true }, e₁, rw e₂, free₂, refl)
