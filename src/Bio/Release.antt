-- ===== src/Bio/Release.antt =====
-- `brelse` and `binit`: buffers move to the front of the order of use.
use os_ass.Common.{modify_inv, get_elem?-modify_self}
use os_ass.Bio.{
  Buf, nbuf, head, Cache, link, to_front, unlink, binit_loop, binit, passes, drop_hold, brelse,
}
use os_ass.Bio.Ring.{
  NotIn, Apart, IsRing, NotIn-with, Apart-without, NotIn-without, unlink-IsRing, to_front-IsRing,
}
use os_ass.Bio.Order.{IsCache, IsUnique-modify, modify-IsCache, bufs-IsRing}
use os_ass.Common.{
  ℕ, zero, suc, ◌+◌, ◌-◌, ◌%◌, ◌^◌, ◌≤◌, ◌<◌, ◌≡◌, refl, sym, ap, ◌∙◌, inl, inr, true, false, some,
  List, [], ◌∷◌, ◌++◌, arith, ◌==◌, if◌then◌else◌, Bool-cases, length, get_elem?, modify,
  length-modify, done,
}

length-middle : (x : ℕ) (l r : List ℕ) → length (l ++ x ∷ r) ≡ suc (length (l ++ r))
length-middle x [] r = refl
length-middle x (y ∷ l) r = ap suc (length-middle x l r)

-- Moving a buffer to the front keeps the cache in order.
moved-IsCache :
    (c : Cache) (l : List ℕ) (b : ℕ) (r : List ℕ)
    → IsCache c (l ++ b ∷ r)
    → IsCache (to_front b (unlink b c)) (b ∷ l ++ r)
unfolding to_front unlink
moved-IsCache c l b r k = record {
  ring =
      to_front-IsRing (unlink b c) (l ++ r) b (unlink-IsRing c l b r k.ring)
        (λ e. (NotIn-without head b l r k.ring.off_head).0 (sym e))
        (Apart-without b l r k.ring.apart).0;
  whole = k.whole;
  few = omega (arith, k.few, length-middle b l r);
  all = λ i lt h. k.all i lt (NotIn-with i b l r h.0 h.1);
  unique = k.unique;
}

-- `brelse` of a locked buffer on a cache in order: a buffer that is held no more becomes the first in
-- the order of use, and the order of the others stays; the cache is in order again.
pub brelse-IsCache :
    (c : Cache) (l : List ℕ) (b : ℕ) (r : List ℕ) (x : Buf)
    → IsCache c (l ++ b ∷ r)
    → get_elem? c.bufs b ≡ some x
    → x.locked ≡ true
    → 0 < x.refcnt
    → x.refcnt < 2 ^ 32
    → (c' : Cache) × (brelse b c ≡ done c')
      × (get_elem? c'.bufs b ≡ some (record x { refcnt = x.refcnt - 1; locked = false }))
      × IsCache c' (if x.refcnt == 1 then b ∷ l ++ r else l ++ b ∷ r)
unfolding brelse to_front unlink
brelse-IsCache c l b r x k at locked held word = elim (Bool-cases (x.refcnt == 1)) [
  | inl one ↦ (
    to_front b (unlink b c'),
    rw (brelse, is_locked, last_test, one) refl,
    entry,
    rw one (moved-IsCache c' l b r after),
  )
  | inr more ↦ (c', rw (brelse, is_locked, last_test, more) refl, entry, rw more after)
]
  where
    c' : Cache
    c' = record c { bufs = modify c.bufs b drop_hold }

    after : IsCache c' (l ++ b ∷ r)
    after =
        modify-IsCache c (l ++ b ∷ r) b drop_hold k
          (IsUnique-modify c.bufs b drop_hold (λ q. (refl, refl)) k.unique)

    count : (x.refcnt + 2 ^ 32 - 1) % 2 ^ 32 ≡ x.refcnt - 1
    count = omega arith

    entry : get_elem? c'.bufs b ≡ some (record x { refcnt = x.refcnt - 1; locked = false })
    entry = rw (sym count) (get_elem?-modify_self c.bufs b drop_hold x at)

    is_locked : passes (λ q. q.locked) c.bufs b ≡ true
    is_locked = rw (passes, at) locked

    last_test : passes (λ q. q.refcnt == 0) c'.bufs b ≡ (x.refcnt == 1)
    last_test = rw (passes, entry) (ground arith)

-- The order that `binit` leaves: the last buffer of the table first.
abbrev pub downs : ℕ → List ℕ
downs zero = []
downs (suc n) = n ∷ downs n

downs-NotIn : (x n : ℕ) → n ≤ x → NotIn x (downs n)
downs-NotIn x zero le = tt
downs-NotIn x (suc n) le = (λ e. absurd (omega (arith, e)), downs-NotIn x n (omega arith))

downs-all : (i n : ℕ) → i < n → NotIn i (downs n) → ⊥
downs-all i zero lt h = absurd (omega arith)
downs-all i (suc n) lt (ne, h) = downs-all i n (omega arith) h

length-downs : (n : ℕ) → length (downs n) ≡ n
length-downs zero = refl
length-downs (suc n) = ap suc (length-downs n)

downs-Apart : (n : ℕ) → Apart (downs n)
downs-Apart zero = tt
downs-Apart (suc n) = (downs-NotIn n n (omega arith), downs-Apart n)

-- After `n` rounds.
record Started (n : ℕ) (c : Cache) : Type 0 where
  ring : IsRing c (downs n)
  whole : length c.bufs ≡ nbuf
  devices : (i : ℕ) (x : Buf) → get_elem? c.bufs i ≡ some x → x.dev ≡ 0

binit_loop-Started :
    (r b n : ℕ) (c : Cache) → b + r ≡ n → n ≤ nbuf → Started b c → Started n (binit_loop r b c)
unfolding binit_loop to_front
binit_loop-Started zero b n c e le s = let same : b ≡ n = omega (arith, e) in rw (sym same) s
binit_loop-Started (suc r) b n c e le s =
    binit_loop-Started r (suc b) n (to_front b (record c { bufs = modify c.bufs b unlocked }))
      (omega (arith, e)) le
      (record {
        ring =
            to_front-IsRing (record c { bufs = modify c.bufs b unlocked }) (downs b) b
              (bufs-IsRing c (modify c.bufs b unlocked) (downs b) s.ring)
              (λ at. absurd (omega arith)) (downs-NotIn b b (omega arith));
        whole = length-modify c.bufs b unlocked ∙ s.whole;
        devices = λ i x at. elim (modify_inv c.bufs b i unlocked x at) [
          | inl (_, (w, was, is)) ↦ ap (λ (q : Buf). q.dev) is ∙ s.devices i w was
          | inr (_, was) ↦ s.devices i x was
        ];
      })
  where
    unlocked : Buf → Buf
    unlocked q = record q { locked = false }

-- `binit` on the zeroed table puts the cache in order, with all the buffers in it.
pub binit-IsCache :
    (c : Cache)
    → length c.bufs ≡ nbuf
    → ((i : ℕ) (x : Buf) → get_elem? c.bufs i ≡ some x → x.dev ≡ 0)
    → IsCache (binit c) (downs nbuf)
unfolding binit
binit-IsCache c len zeros = record {
  ring = s.ring;
  whole = s.whole;
  few = omega arith;
  all = λ i lt h. downs-all i nbuf lt h;
  unique = λ i j x y at _ _ _ ne. absurd (ne (s.devices i x at));
}
  where
    c₀ : Cache
    c₀ = record c { prev = link c.prev head head; next = link c.next head head }

    s : Started nbuf (binit_loop nbuf 0 c₀)
    s = binit_loop-Started nbuf 0 nbuf c₀ refl (omega arith) (record {
      ring = record { linked = (refl, refl); apart = tt; off_head = tt };
      whole = len;
      devices = zeros;
    })
