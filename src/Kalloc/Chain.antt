-- ===== src/Kalloc/Chain.antt =====
-- What the free list stands for: the distinct free pages, the next one to be handed out first.
use os_ass.Common.{
  ℕ, ◌≡◌, refl, sym, ◌≢◌, Bool, true, false, ◌||◌, List, [], ◌∷◌, arith, ◌==◌, done, panic,
}
use os_ass.Kalloc.{Kmem, junk, store, bad_page, kfree, kalloc}

abbrev pub has : ℕ → List ℕ → Bool
has a [] = false
has a (x ∷ xs) = a == x || has a xs

-- From `p` the first words of the pages lead through `xs` to the null pointer.
abbrev pub Chain : ℕ → (ℕ → ℕ) → ℕ → List ℕ → Type 0
Chain end m p [] = p ≡ 0
Chain end m p (x ∷ xs) =
    (p ≡ x) × (bad_page end x ≡ false) × (has x xs ≡ false) × Chain end m (m x) xs

store_self : (m : ℕ → ℕ) (v x : ℕ) → store m v x v ≡ x
store_self m v x = ground arith

module _ (end : ℕ) where
  -- The free pages of an allocator.
  abbrev pub IsFree : Kmem → List ℕ → Type 0
  IsFree k xs = Chain end k.mem k.freelist xs

  -- Pages are aligned: filling page `v` and storing its link spares every other page's link.
  spared :
      (m : ℕ → ℕ) (v x next : ℕ)
      → bad_page end v ≡ false
      → bad_page end x ≡ false
      → (x == v) ≡ false
      → store (junk m v) v next x ≡ m x
  spared m v x next pv px ne = ground arith

  Chain-spared :
      (m : ℕ → ℕ) (v next p : ℕ) (xs : List ℕ)
      → bad_page end v ≡ false
      → has v xs ≡ false
      → Chain end m p xs
      → Chain end (store (junk m v) v next) p xs
  Chain-spared m v next p [] pv out c = c
  Chain-spared m v next p (x ∷ xs) pv out (e, px, new, c) = (
    e,
    px,
    new,
    rw (spared m v x next pv px (ground arith))
        (Chain-spared m v next (m x) xs pv (ground arith) c),
  )

  -- For a page in range, aligned and not free yet, `kfree` ends without a panic: the page becomes
  -- the first of the free ones, in front of the others in their order, and `use_lock` stays.
  pub kfree-IsFree :
      (k : Kmem) (v : ℕ) (xs : List ℕ)
      → IsFree k xs
      → has v xs ≡ false
      → bad_page end v ≡ false
      → (k' : Kmem) × (kfree end k v ≡ done k') × IsFree k' (v ∷ xs) × (k'.use_lock ≡ k.use_lock)
  unfolding kfree
  kfree-IsFree k v xs free out ok = (
    record k { mem = store (junk k.mem v) v k.freelist; freelist = v },
    rw ok,
    (
      refl,
      ok,
      out,
      rw (store_self (junk k.mem v) v k.freelist)
          (Chain-spared k.mem v k.freelist k.freelist xs ok out free),
    ),
    refl,
  )

  -- It panics on every other address.
  pub kfree-panic : (k : Kmem) (v : ℕ) → bad_page end v ≡ true → kfree end k v ≡ panic "kfree"
  unfolding kfree
  kfree-panic k v bad = rw bad

  -- Address 0 lies below the kernel, so no page is mistaken for the null pointer.
  page-ne-zero : (x : ℕ) → bad_page end x ≡ false → x ≢ 0
  page-ne-zero x px e = ground arith

  -- While there are free pages, `kalloc` returns the first of them, which is not free afterwards;
  -- the others stay free in their order.
  pub kalloc-IsFree :
      (k : Kmem) (x : ℕ) (xs : List ℕ)
      → IsFree k (x ∷ xs)
      → ((kalloc k).0 ≡ x) × IsFree (kalloc k).1 xs × (has x xs ≡ false)
  unfolding kalloc
  kalloc-IsFree k x xs (e, px, new, c) = rw (listed) (e, rw (sym e) at c, new)
    where
      listed : (k.freelist == 0) ≡ false
      listed = ground (arith, page-ne-zero x px)

  pub kalloc-empty : (k : Kmem) → IsFree k [] → kalloc k ≡ (0, k)
  unfolding kalloc
  kalloc-empty k e = rw e
