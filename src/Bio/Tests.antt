-- ===== src/Bio/Tests.antt =====
-- The buffer cache after `binit`, at concrete blocks.
use os_ass.Bio.{Buf, nbuf, Cache, binit, binit_loop, to_front, walk, recycle, bget, brelse}
use os_ass.Bio.Order.{
  IsCache, Hit, Miss, Full, bget-Answers, bget-IsCache, modify-IsCache, IsUnique-modify,
}
use os_ass.Bio.Release.{brelse-IsCache, downs, binit-IsCache}
use os_ass.Common.{
  ℕ, zero, suc, ◌-◌, ◌≡◌, refl, sym, ap, ◌⊎◌, true, false, some, [], ◌∷◌, ◌++◌, arith, get_elem?,
  replicate, modify, done, some_inj,
}

abbrev empty_buf : Buf
empty_buf = record {
  dev = 0;
  blockno = 0;
  refcnt = 0;
  valid = false;
  dirty = false;
  locked = false;
  bytes = λ x. 0;
}

abbrev zeroed : Cache
zeroed = record { bufs = replicate 30 empty_buf; next = λ x. 0; prev = λ x. 0 }

replicate-dev :
    (n i : ℕ) (x : Buf) → get_elem? (replicate n empty_buf) i ≡ some x → ◌≡◌ {A = ℕ} x.dev 0
replicate-dev zero i x e = absurd (ground arith)
replicate-dev (suc n) zero x e = ap (λ (q : Buf). q.dev) (sym (some_inj e))
replicate-dev (suc n) (suc i) x e = replicate-dev n i x e

binit-IsCache_example : IsCache (binit zeroed) (downs nbuf)
binit-IsCache_example = binit-IsCache zeroed refl (replicate-dev 30)

started : IsCache (binit zeroed) (downs nbuf)
started = binit-IsCache zeroed refl (replicate-dev 30)

bget-Answers_example :
    Hit (binit zeroed) 1 7 ⊎ Miss (binit zeroed) (downs nbuf) 1 7 ⊎ Full (binit zeroed) 1 7
bget-Answers_example = bget-Answers (binit zeroed) (downs nbuf) 1 7 started

-- The first block goes to the buffer at the end of the ring.
bget-IsCache_example :
    IsCache
      (record (binit zeroed) { bufs = modify (binit zeroed).bufs 0 (recycle 1 7) })
      (downs nbuf)
unfolding binit binit_loop to_front walk bget
bget-IsCache_example =
    bget-IsCache (binit zeroed) (downs nbuf) 1 7 0
      (record (binit zeroed) { bufs = modify (binit zeroed).bufs 0 (recycle 1 7) }) started refl

abbrev take_buf : Buf → Buf
take_buf b = record b { refcnt = 1; locked = true }

abbrev one_taken : Cache
one_taken = record (binit zeroed) { bufs = modify (binit zeroed).bufs 27 take_buf }

brelse-IsCache_example :
    (c' : Cache) × (brelse 27 one_taken ≡ done c')
    × (get_elem? c'.bufs 27 ≡ some (record (take_buf empty_buf) { refcnt = 1 - 1; locked = false }))
    × IsCache c' (27 ∷ (29 ∷ 28 ∷ []) ++ downs 27)
unfolding binit binit_loop to_front
brelse-IsCache_example =
    brelse-IsCache one_taken (29 ∷ 28 ∷ []) 27 (downs 27) (take_buf empty_buf)
      (modify-IsCache (binit zeroed) (downs nbuf) 27 take_buf started
        (IsUnique-modify (binit zeroed).bufs 27 take_buf (λ q. (refl, refl)) started.unique))
      refl refl (omega arith) (omega arith)
