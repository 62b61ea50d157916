-- ===== src/Bio/Order.antt =====
-- The buffers in the order of their use, and what `bget` and `brelse` do to them.
use mathlib.Core.Path.{subst}
use os_ass.Common.{modify_inv}
use mathlib.Core.Bool.{false≢true}
use os_ass.Bio.{Buf, nbuf, head, Cache, is_cached, is_idle, passes, hold, recycle, bget, walk}
use os_ass.Bio.Ring.{NotIn, IsRing}
use os_ass.Bio.Walk.{
  first, last, walk-first, walk-last, NoneOf, NoneOf-NotIn, first-answers, last-answers,
}
use os_ass.Common.{
  ℕ, ◌≤◌, ◌<◌, ◌≡◌, refl, sym, ap, ◌∙◌, ◌≢◌, ◌⊎◌, inl, inr, Bool, true, false, some, List, ◌∷◌,
  ◌++◌, arith, ◌==◌, Bool-cases, Option-cases, ==_iff, ==_refl, length, get_elem?,
  get_elem?-lt-length, modify, length-modify, done, panic, done_inj,
}

-- No two buffers of the table hold the same block. Device 0, which all buffers start with, is none.
abbrev pub IsUnique : List Buf → Type 0
IsUnique bufs =
    (i j : ℕ) (x y : Buf)
    → get_elem? bufs i ≡ some x
    → get_elem? bufs j ≡ some y
    → x.dev ≡ y.dev
    → x.blockno ≡ y.blockno
    → x.dev ≢ 0
    → i ≡ j

-- The ring holds each buffer of the table once, in the order `xs`, the latest used first.
pub record IsCache (c : Cache) (xs : List ℕ) : Type 0 where
  pub ring : IsRing c xs
  pub whole : length c.bufs ≡ nbuf
  pub few : length xs ≤ nbuf
  pub all : (i : ℕ) → i < nbuf → NotIn i xs → ⊥
  pub unique : IsUnique c.bufs

abbrev pub Absent : List Buf → (dev blockno : ℕ) → Type 0
Absent bufs dev blockno =
    (i : ℕ) (x : Buf) → get_elem? bufs i ≡ some x → is_cached dev blockno x ≡ false

-- The block is in a buffer.
abbrev pub Hit : Cache → (dev blockno : ℕ) → Type 0
Hit c dev blockno =
    (b : ℕ) × (x : Buf) × (get_elem? c.bufs b ≡ some x)
    × (x.dev ≡ dev)
    × (x.blockno ≡ blockno)
    × (bget c dev blockno ≡ done (b, record c { bufs = modify c.bufs b hold }))

-- It is in none, and is given the buffer that is idle for the longest time.
abbrev pub Miss : Cache → List ℕ → (dev blockno : ℕ) → Type 0
Miss c xs dev blockno =
    Absent c.bufs dev blockno
    × ((b : ℕ) × (x : Buf) × (l : List ℕ) × (r : List ℕ) × (xs ≡ l ++ b ∷ r)
        × (get_elem? c.bufs b ≡ some x)
        × (is_idle x ≡ true)
        × NoneOf (passes is_idle c.bufs) r
        × (bget c dev blockno
            ≡ done (b, record c { bufs = modify c.bufs b (recycle dev blockno) })))

-- It is in none, and no buffer is idle.
abbrev pub Full : Cache → (dev blockno : ℕ) → Type 0
Full c dev blockno =
    Absent c.bufs dev blockno
    × ((i : ℕ) (x : Buf) → get_elem? c.bufs i ≡ some x → is_idle x ≡ false)
    × (bget c dev blockno ≡ panic "bget: no buffers")

passes-some :
    (test : Buf → Bool) (bufs : List Buf) (i : ℕ)
    → passes test bufs i ≡ true
    → (x : Buf) × (get_elem? bufs i ≡ some x) × (test x ≡ true)
passes-some test bufs i h = elim (Option-cases (get_elem? bufs i)) [
  | inl e ↦ absurd (false≢true (rw (e, passes) at h))
  | inr (x, e) ↦ (x, e, rw (e, passes) at h)
]

-- What no buffer of the ring passes, no buffer of the table passes.
NoneOf-all :
    (test : Buf → Bool) (c : Cache) (xs : List ℕ)
    → IsCache c xs
    → NoneOf (passes test c.bufs) xs
    → (i : ℕ) (x : Buf) → get_elem? c.bufs i ≡ some x
    → test x ≡ false
NoneOf-all test c xs k h i x e = elim (Bool-cases (test x)) [
  | inl t ↦ absurd (
      k.all i (omega (arith, get_elem?-lt-length c.bufs i x e, k.whole))
        (NoneOf-NotIn (passes test c.bufs) i xs h (rw (e, passes) t)))
  | inr f ↦ f
]

is_cached-fields :
    (dev blockno : ℕ) (x : Buf)
    → is_cached dev blockno x ≡ true
    → (x.dev ≡ dev) × (x.blockno ≡ blockno)
is_cached-fields dev blockno x h = elim (Bool-cases (x.dev == dev)) [
  | inl d ↦ ((==_iff x.dev dev).0 d, (==_iff x.blockno blockno).0 (rw d at h))
  | inr d ↦ absurd (false≢true (rw d at h))
]

-- `bget` on a cache in order finds the block in its buffer and holds it once more; or, if no buffer
-- has the block, gives it the last idle buffer in the order of use; or panics, if there is none.
pub bget-Answers :
    (c : Cache) (xs : List ℕ) (dev blockno : ℕ)
    → IsCache c xs
    → Hit c dev blockno ⊎ Miss c xs dev blockno ⊎ Full c dev blockno
unfolding bget
bget-Answers c xs dev blockno k = elim (first-answers (passes (is_cached dev blockno) c.bufs) xs) [
  | inl (b, e, t) ↦
      let (x, at, same) = passes-some (is_cached dev blockno) c.bufs b t in
      let fields = is_cached-fields dev blockno x same in
      inl (b, x, at, fields.0, fields.1, rw (bget, forward, e) refl)
  | inr (e, h) ↦ elim (last-answers (passes is_idle c.bufs) xs) [
    | inl (b, l, r, e', t, is, h') ↦
        let (x, at, idle) = passes-some is_idle c.bufs b t in
        inr (inl (absent h, (b, x, l, r, is, at, idle, h', rw (bget, forward, e, back, e') refl)))
    | inr (e', h') ↦
        inr (inr (absent h, NoneOf-all is_idle c xs k h', rw (bget, forward, e, back, e') refl))
  ]
]
  where
    forward :
        walk 31 c.next (passes (is_cached dev blockno) c.bufs) (c.next head)
        ≡ first (passes (is_cached dev blockno) c.bufs) xs
    forward =
        walk-first c.next c.prev (passes (is_cached dev blockno) c.bufs) 31 head xs k.ring.linked
          k.ring.off_head (omega (arith, k.few))

    back : walk 31 c.prev (passes is_idle c.bufs) (c.prev head) ≡ last (passes is_idle c.bufs) xs
    back =
        walk-last c.next c.prev (passes is_idle c.bufs) 31 xs k.ring.linked k.ring.off_head
          (omega (arith, k.few))

    absent : NoneOf (passes (is_cached dev blockno) c.bufs) xs → Absent c.bufs dev blockno
    absent h = NoneOf-all (is_cached dev blockno) c xs k h

pub IsUnique-modify :
    (bufs : List Buf) (b : ℕ) (f : Buf → Buf)
    → ((x : Buf) → ((f x).dev ≡ x.dev) × ((f x).blockno ≡ x.blockno))
    → IsUnique bufs
    → IsUnique (modify bufs b f)
IsUnique-modify bufs b f same u i j x y at_i at_j e e' ne =
    let (x', was_i, xd, xb) = before i x at_i in
    let (y', was_j, yd, yb) = before j y at_j in
    u i j x' y' was_i was_j (sym xd ∙ e ∙ yd) (sym xb ∙ e' ∙ yb) (λ z. ne (xd ∙ z))
  where
    before :
        (i : ℕ) (x : Buf)
        → get_elem? (modify bufs b f) i ≡ some x
        → (w : Buf) × (get_elem? bufs i ≡ some w) × (x.dev ≡ w.dev) × (x.blockno ≡ w.blockno)
    before i x at = elim (modify_inv bufs b i f x at) [
      | inl (e, (w, was, is)) ↦ (
        w,
        was,
        ap (λ (q : Buf). q.dev) is ∙ (same w).0,
        ap (λ (q : Buf). q.blockno) is ∙ (same w).1,
      )
      | inr (ne, was) ↦ (x, was, refl, refl)
    ]

IsUnique-recycle :
    (bufs : List Buf) (b dev blockno : ℕ)
    → Absent bufs dev blockno
    → IsUnique bufs
    → IsUnique (modify bufs b (recycle dev blockno))
IsUnique-recycle bufs b dev blockno none_has u i j x y at_i at_j e e' ne =
    elim (modify_inv bufs b i (recycle dev blockno) x at_i) [
      | inl (bi, (w, was, is)) ↦ elim (modify_inv bufs b j (recycle dev blockno) y at_j) [
        | inl (bj, _) ↦ sym bi ∙ bj
        | inr (_, was_j) ↦ absurd (
            clash j y was_j (sym e ∙ ap (λ (q : Buf). q.dev) is)
              (sym e' ∙ ap (λ (q : Buf). q.blockno) is))
      ]
      | inr (_, was_i) ↦ elim (modify_inv bufs b j (recycle dev blockno) y at_j) [
        | inl (bj, (w, was, is)) ↦
            absurd (
              clash i x was_i (e ∙ ap (λ (q : Buf). q.dev) is)
                (e' ∙ ap (λ (q : Buf). q.blockno) is))
        | inr (_, was_j) ↦ u i j x y was_i was_j e e' ne
      ]
    ]
  where
    clash : (i : ℕ) (x : Buf) → get_elem? bufs i ≡ some x → x.dev ≡ dev → x.blockno ≡ blockno → ⊥
    clash i x at d n =
        let f = none_has i x at in false≢true (sym (rw (d, n, ==_refl dev, ==_refl blockno) at f))

pub bufs-IsRing :
    (c : Cache) (bs : List Buf) (xs : List ℕ) → IsRing c xs → IsRing (record c { bufs = bs }) xs
bufs-IsRing c bs xs r = record { linked = r.linked; apart = r.apart; off_head = r.off_head }

pub modify-IsCache :
    (c : Cache) (xs : List ℕ) (b : ℕ) (f : Buf → Buf)
    → IsCache c xs
    → IsUnique (modify c.bufs b f)
    → IsCache (record c { bufs = modify c.bufs b f }) xs
modify-IsCache c xs b f k u = record {
  ring = bufs-IsRing c (modify c.bufs b f) xs k.ring;
  whole = length-modify c.bufs b f ∙ k.whole;
  few = k.few;
  all = k.all;
  unique = u;
}

-- `bget` keeps the cache in order: no two buffers hold the same block.
pub bget-IsCache :
    (c : Cache) (xs : List ℕ) (dev blockno b : ℕ) (c' : Cache)
    → IsCache c xs
    → bget c dev blockno ≡ done (b, c')
    → IsCache c' xs
bget-IsCache c xs dev blockno b c' k e = elim (bget-Answers c xs dev blockno k) [
  | inl (i, x, _, _, _, is) ↦
      kept i hold is
        (modify-IsCache c xs i hold k (IsUnique-modify c.bufs i hold (λ q. (refl, refl)) k.unique))
  | inr (inl (none_has, (i, x, l, r, _, _, _, _, is))) ↦ kept i (recycle dev blockno) is (
      modify-IsCache c xs i (recycle dev blockno) k
        (IsUnique-recycle c.bufs i dev blockno none_has k.unique))
  | inr (inr (_, _, is)) ↦ absurd (ground (arith, e, is))
]
  where
    kept :
        (i : ℕ) (f : Buf → Buf)
        → bget c dev blockno ≡ done (i, record c { bufs = modify c.bufs i f })
        → IsCache (record c { bufs = modify c.bufs i f }) xs
        → IsCache c' xs
    kept i f is h =
        subst (λ q. IsCache q xs) (ap (λ (q : ℕ × Cache). q.1) (done_inj (sym is ∙ e))) h
