-- ===== src/Kalloc.antt =====
-- kalloc.c: the allocator of physical pages, a free list threaded through the free pages.
-- `kmem.lock` is held for the whole body of `kalloc` and `kfree`, so a call is one atomic step.
pub mod Chain
pub mod Range
mod Tests
use mathlib.Core.Option
use os_ass.Common.{
  ℕ, zero, suc, ◌+◌, ◌-◌, ◌*◌, ◌/◌, ◌%◌, ◌^◌, ◌≤◌, ◌<◌, min, ◌≡◌, refl, sym, ap, ◌∙◌, ◌≢◌, ◌↔◌, ◌⊎◌,
  inl, inr, Bool, true, false, not, ◌&&◌, ◌||◌, Option, none, some, List, [], ◌∷◌, ◌++◌, map, arith,
  ltb, leb, ◌==◌, if◌then◌else◌, Bool-cases, Option-cases, ltb→lt, lt→ltb, ==_iff, ==_refl, length,
  get_elem?, get_or, set, replicate, length-append, length-set, length-replicate, get_elem?-set,
  get_or-set, get_elem?-lt-length, find_index, IsFirst, find_index-IsFirst, find_index-none,
  Outcome, done, panic, ◌>>=◌,
}

-- `kmem`, with the memory that the list runs through: the word at each address.
-- `use_lock` says whether the calls take the lock.
pub record Kmem : Type 0 where
  pub use_lock : Bool
  pub freelist : ℕ
  pub mem : ℕ → ℕ

-- mmu.h and memlayout.h
abbrev pub pg_size : ℕ
pg_size = 4096

abbrev pub kern_base : ℕ
kern_base = 0x80000000

abbrev pub phys_top : ℕ
phys_top = 0xE000000

-- `V2P`, a subtraction of `uint`
abbrev pub v2p : ℕ → ℕ
v2p a = (a + 2 ^ 32 - kern_base) % 2 ^ 32

-- `PGROUNDUP`: the mask clears the low twelve bits.
abbrev pub pg_round_up : ℕ → ℕ
pg_round_up sz = (sz + pg_size - 1) % 2 ^ 32 / pg_size * pg_size

-- `memset(v, 1, PGSIZE)`, seen by words.
abbrev pub junk : (ℕ → ℕ) → ℕ → ℕ → ℕ
junk m v a = if leb v a && ltb a (v + pg_size) then 0x01010101 else m a

abbrev pub store : (ℕ → ℕ) → ℕ → ℕ → ℕ → ℕ
store m p x a = if p == a then x else m a

abbrev pub locked : Kmem → Outcome Kmem
locked k = done (record k { use_lock = true })

-- `end` is where the linker puts the end of the kernel.
module _ (end : ℕ) where
  abbrev pub bad_page : ℕ → Bool
  bad_page v = not (v % pg_size == 0) || (ltb v end || leb phys_top (v2p v))

  unfoldable pub kfree : Kmem → ℕ → Outcome Kmem
  kfree k v =
      if bad_page v
      then panic "kfree"
      else done (record k { mem = store (junk k.mem v) v k.freelist; freelist = v })

  -- `for(; p + PGSIZE <= vend; p += PGSIZE) kfree(p);` on fuel; the last case is out of fuel.
  unfoldable pub freerange_loop : ℕ → Kmem → (p vend : ℕ) → Option (Outcome Kmem)
  freerange_loop zero k p vend = none
  freerange_loop (suc f) k p vend =
      if leb (p + pg_size) vend
      then elim (kfree k p) [
        | done k' ↦ freerange_loop f k' (p + pg_size) vend
        | panic s ↦ some (panic s)
      ]
      else some (done k)

  -- The fuel is enough for every `vend`: each round advances `p` by a page.
  unfoldable pub freerange : Kmem → (vstart vend : ℕ) → Option (Outcome Kmem)
  freerange k vstart vend = freerange_loop (vend / pg_size + 1) k (pg_round_up vstart) vend

  unfoldable pub kinit1 : Kmem → (vstart vend : ℕ) → Option (Outcome Kmem)
  kinit1 k vstart vend = freerange (record k { use_lock = false }) vstart vend

  unfoldable pub kinit2 : Kmem → (vstart vend : ℕ) → Option (Outcome Kmem)
  kinit2 k vstart vend = Option.map (λ r. r >>= locked) (freerange k vstart vend)

-- The page, or 0 if there is none.
unfoldable pub kalloc : Kmem → ℕ × Kmem
kalloc k =
    if k.freelist == 0 then (0, k) else (k.freelist, record k { freelist = k.mem k.freelist })
