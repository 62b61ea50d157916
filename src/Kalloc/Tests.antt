-- ===== src/Kalloc/Tests.antt =====
-- The page allocator at concrete inputs: a kernel that ends at 0x80115000, and two ranges of pages.
use os_ass.Common.{ℕ, ◌≡◌, refl, true, false, some, [], ◌∷◌, arith, ◌==◌, if◌then◌else◌, done}
use os_ass.Kalloc.{Kmem, kfree, kalloc, kinit1, kinit2, pg_round_up}
use os_ass.Kalloc.Chain.{has, IsFree, kfree-IsFree, kalloc-IsFree}
use os_ass.Kalloc.Range.{pages, page_count, kinit-IsFree}

abbrev kernel_end : ℕ
kernel_end = 0x80114ff0

abbrev empty : Kmem
empty = record { use_lock = false; freelist = 0; mem = λ _. 0 }

-- Two free pages.
abbrev two_pages : Kmem
two_pages = record {
  use_lock = true;
  freelist = 0x80116000;
  mem = λ a. if a == 0x80116000 then 0x80115000 else 0;
}

two_pages-IsFree : IsFree kernel_end two_pages (0x80116000 ∷ 0x80115000 ∷ [])
two_pages-IsFree = (refl, refl, refl, (refl, refl, refl, refl))

kfree-IsFree_example :
    (k' : Kmem) × (kfree kernel_end two_pages 0x80117000 ≡ done k')
    × IsFree kernel_end k' (0x80117000 ∷ 0x80116000 ∷ 0x80115000 ∷ [])
    × (k'.use_lock ≡ true)
kfree-IsFree_example =
    kfree-IsFree kernel_end two_pages 0x80117000 (0x80116000 ∷ 0x80115000 ∷ []) two_pages-IsFree
      refl refl

kalloc-IsFree_example :
    ((kalloc two_pages).0 ≡ 0x80116000)
    × IsFree kernel_end (kalloc two_pages).1 (0x80115000 ∷ [])
    × (has 0x80116000 (0x80115000 ∷ []) ≡ false)
kalloc-IsFree_example =
    kalloc-IsFree kernel_end two_pages 0x80116000 (0x80115000 ∷ []) two_pages-IsFree

kinit-IsFree_example :
    (k₁ k₂ : Kmem) × (kinit1 kernel_end empty 0x80114ff0 0x80117800 ≡ some (done k₁))
    × (kinit2 kernel_end k₁ 0x80117800 0x80119000 ≡ some (done k₂))
    × IsFree kernel_end k₂ (
        pages
          (pg_round_up 0x80117800)
          (page_count 0x80117800 0x80119000)
          (pages (pg_round_up 0x80114ff0) (page_count 0x80114ff0 0x80117800) []))
    × (k₂.use_lock ≡ true)
kinit-IsFree_example =
    kinit-IsFree kernel_end (omega arith) empty 0x80114ff0 0x80117800 0x80119000 refl (omega arith)
      (omega arith) (omega arith) (omega arith) (omega arith) (omega arith)

-- The pages of the first range: 0x80115000 and 0x80116000, the last one first.
pages_run :
    pages (pg_round_up 0x80114ff0) (page_count 0x80114ff0 0x80117800) []
    ≡ 0x80116000 ∷ 0x80115000 ∷ []
unfolding pages
pages_run = refl
