-- ===== src/Bio.antt =====
-- bio.c: the cache of disk blocks. The buffers stand in a table, and a ring of `prev` and `next`
-- pointers through them keeps the order of use.
pub mod Ring
pub mod Walk
pub mod Order
pub mod Release
mod Tests
use os_ass.Common.Memory.{Memory}
use mathlib.Core.Option
use os_ass.Common.{
  ℕ, zero, suc, ◌+◌, ◌-◌, ◌*◌, ◌/◌, ◌%◌, ◌^◌, ◌≤◌, ◌<◌, min, ◌≡◌, refl, sym, ap, ◌∙◌, ◌≢◌, ◌↔◌, ◌⊎◌,
  inl, inr, Bool, true, false, not, ◌&&◌, ◌||◌, Option, none, some, List, [], ◌∷◌, ◌++◌, map, arith,
  ltb, leb, ◌==◌, if◌then◌else◌, Bool-cases, Option-cases, ltb→lt, lt→ltb, ==_iff, ==_refl, length,
  get_elem?, get_or, set, replicate, length-append, length-map, length-set, length-replicate,
  get_elem?-set, get_or-set, get_elem?-lt-length, modify, length-modify, get_elem?-modify,
  get_elem?-append, modify-append, find_from, find_index, IsFirst, find_index-IsFirst,
  find_index-none, Outcome, done, panic, ◌>>=◌, done_inj, some_inj,
}

-- `struct buf` but for the pointers. `valid` and `dirty` are B_VALID and B_DIRTY of `flags`, `bytes`
-- is `data`, and `locked` is that of the sleep lock.
pub record Buf : Type 0 where
  pub dev : ℕ
  pub blockno : ℕ
  pub refcnt : ℕ
  pub valid : Bool
  pub dirty : Bool
  pub locked : Bool
  pub bytes : Memory

-- `NBUF`
abbrev pub nbuf : ℕ
nbuf = 30

-- A pointer to a buffer is its index; `&bcache.head` is the one behind the last.
abbrev pub head : ℕ
head = 30

-- `bcache`
pub record Cache : Type 0 where
  pub bufs : List Buf
  pub next : ℕ → ℕ
  pub prev : ℕ → ℕ

-- `p[a] = v`, for a field of all the buffers and of the head
abbrev pub link : (ℕ → ℕ) → (a v : ℕ) → ℕ → ℕ
link p a v x = if a == x then v else p x

-- The four assignments that put a buffer behind the head.
unfoldable pub to_front : ℕ → Cache → Cache
to_front b c =
    let next₁ = link c.next b (c.next head) in
    let prev₁ = link c.prev b head in
    record c { next = link next₁ head b; prev = link prev₁ (next₁ head) b }

-- The two that take it out of the ring.
unfoldable pub unlink : ℕ → Cache → Cache
unlink b c =
    let prev₁ = link c.prev (c.next b) (c.prev b) in
    record c { prev = prev₁; next = link c.next (prev₁ b) (c.next b) }

unfoldable pub binit_loop : (rounds b : ℕ) → Cache → Cache
binit_loop zero b c = c
binit_loop (suc r) b c =
    let buffer = λ (x : Buf). record x { locked = false } in
    binit_loop r (suc b) (to_front b (record c { bufs = modify c.bufs b buffer }))

unfoldable pub binit : Cache → Cache
binit c =
    binit_loop nbuf 0 (record c { prev = link c.prev head head; next = link c.next head head })

abbrev pub is_cached : (dev blockno : ℕ) → Buf → Bool
is_cached dev blockno b = b.dev == dev && b.blockno == blockno

abbrev pub is_idle : Buf → Bool
is_idle b = b.refcnt == 0 && not b.dirty

-- A test of the buffer at an index
abbrev pub passes : (Buf → Bool) → List Buf → ℕ → Bool
passes test bufs i = elim (get_elem? bufs i) [ some b ↦ test b | none ↦ false ]

-- Along the ring from `b` on to the first buffer that passes, or to the head. The ring has `nbuf`
-- buffers, so that as many rounds and one are enough.
unfoldable pub walk : (rounds : ℕ) → (ℕ → ℕ) → (ℕ → Bool) → (b : ℕ) → Option ℕ
walk zero step test b = none
walk (suc r) step test b =
    let rest = walk r step test (step b) in
    if b == head then none else if test b then some b else rest

abbrev pub hold : Buf → Buf
hold b = record b { refcnt = suc b.refcnt }

abbrev pub recycle : (dev blockno : ℕ) → Buf → Buf
recycle dev blockno b = record b {
  dev = dev;
  blockno = blockno;
  valid = false;
  dirty = false;
  refcnt = 1;
}

-- `bget` up to `acquiresleep`, which is `take` below
unfoldable pub bget : Cache → (dev blockno : ℕ) → Outcome (ℕ × Cache)
bget c dev blockno =
    elim (walk (suc nbuf) c.next (passes (is_cached dev blockno) c.bufs) (c.next head)) [
      | some b ↦ done (b, record c { bufs = modify c.bufs b hold })
      | none ↦ elim (walk (suc nbuf) c.prev (passes is_idle c.bufs) (c.prev head)) [
        | some b ↦ done (b, record c { bufs = modify c.bufs b (recycle dev blockno) })
        | none ↦ panic "bget: no buffers"
      ]
    ]

-- `acquiresleep` of a buffer; `none` where the process has to sleep
unfoldable pub take : ℕ → Cache → Option Cache
take b c =
    if passes (λ x. x.locked) c.bufs b
    then none
    else some (record c { bufs = modify c.bufs b (λ x. record x { locked = true }) })

abbrev pub drop_hold : Buf → Buf
drop_hold b = record b { refcnt = (b.refcnt + 2 ^ 32 - 1) % 2 ^ 32; locked = false }

unfoldable pub brelse : ℕ → Cache → Outcome Cache
brelse b c =
    let c' = record c { bufs = modify c.bufs b drop_hold } in
    if not (passes (λ x. x.locked) c.bufs b)
    then panic "brelse"
    else if passes (λ x. x.refcnt == 0) c'.bufs b
    then done (to_front b (unlink b c'))
    else done c'

-- The disk driver: it writes a buffer that is dirty, and reads any other.
module _ {D : Type 0} (iderw : ℕ → Cache → D → Cache × D) where
  -- What `bread` does with the buffer it has locked.
  unfoldable pub fetch : ℕ → Cache → D → Cache × D
  fetch b c d = if passes (λ x. x.valid) c.bufs b then (c, d) else iderw b c d

  unfoldable pub bwrite : ℕ → Cache → D → Outcome (Cache × D)
  bwrite b c d =
      if not (passes (λ x. x.locked) c.bufs b)
      then panic "bwrite"
      else done (iderw b (record c { bufs = modify c.bufs b (λ x. record x { dirty = true }) }) d)
