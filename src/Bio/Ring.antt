-- ===== src/Bio/Ring.antt =====
-- A ring of two-way pointers that holds a list, and what the writes to the pointers make of the list.
use mathlib.Core.Path.{subst}
use os_ass.Bio.{head, Cache, link, to_front, unlink}
use os_ass.Common.{ℕ, ◌≡◌, refl, sym, ◌∙◌, ◌≢◌, List, [], ◌∷◌, ◌++◌, arith, ==_refl}

abbrev pub NotIn : ℕ → List ℕ → Type 0
NotIn x [] = Unit
NotIn x (y ∷ ys) = (x ≢ y) × NotIn x ys

abbrev pub Apart : List ℕ → Type 0
Apart [] = Unit
Apart (x ∷ xs) = NotIn x xs × Apart xs

-- From `a` by way of `xs` to `b`, forward and back.
abbrev pub Linked : (next prev : ℕ → ℕ) (a : ℕ) → List ℕ → (b : ℕ) → Type 0
Linked next prev a [] b = (next a ≡ b) × (prev b ≡ a)
Linked next prev a (x ∷ xs) b = (next a ≡ x) × (prev x ≡ a) × Linked next prev x xs b

pub NotIn-append : (q : ℕ) (xs ys : List ℕ) → NotIn q (xs ++ ys) → NotIn q xs × NotIn q ys
NotIn-append q [] ys h = (tt, h)
NotIn-append q (x ∷ xs) ys (ne, h) = let r = NotIn-append q xs ys h in ((ne, r.0), r.1)

pub NotIn-without :
    (q x : ℕ) (xs ys : List ℕ) → NotIn q (xs ++ x ∷ ys) → (q ≢ x) × NotIn q (xs ++ ys)
NotIn-without q x [] ys h = h
NotIn-without q x (y ∷ xs) ys (ne, h) = let r = NotIn-without q x xs ys h in (r.0, (ne, r.1))

pub NotIn-with : (q x : ℕ) (xs ys : List ℕ) → q ≢ x → NotIn q (xs ++ ys) → NotIn q (xs ++ x ∷ ys)
NotIn-with q x [] ys ne h = (ne, h)
NotIn-with q x (y ∷ xs) ys ne (ny, h) = (ny, NotIn-with q x xs ys ne h)

pub Apart-without :
    (x : ℕ) (xs ys : List ℕ) → Apart (xs ++ x ∷ ys) → NotIn x (xs ++ ys) × Apart (xs ++ ys)
Apart-without x [] ys h = h
Apart-without x (y ∷ xs) ys (n, h) =
    let r = Apart-without x xs ys h in
    let m = NotIn-without y x xs ys n in ((λ e. m.0 (sym e), r.0), (m.1, r.1))

link_self : (p : ℕ → ℕ) (a v : ℕ) → link p a v a ≡ v
link_self p a v = rw (==_refl a) refl

link-other : (p : ℕ → ℕ) (a v x : ℕ) → a ≢ x → link p a v x ≡ p x
link-other p a v x ne = ground arith

-- Writes to pointers that the way does not use.
Linked-frame :
    (next prev : ℕ → ℕ) (a b p v n w : ℕ) (xs : List ℕ)
    → p ≢ a
    → NotIn p xs
    → NotIn n xs
    → n ≢ b
    → Linked next prev a xs b
    → Linked (link next p v) (link prev n w) a xs b
Linked-frame next prev a b p v n w [] pa px nx nb (f, g) =
    (link-other next p v a pa ∙ f, link-other prev n w b nb ∙ g)
Linked-frame next prev a b p v n w (x ∷ xs) pa (px, pxs) (nx, nxs) nb (f, g, l) = (
  link-other next p v a pa ∙ f,
  link-other prev n w x nx ∙ g,
  Linked-frame next prev x b p v n w xs px pxs nxs nb l,
)

Linked-append :
    (next prev : ℕ → ℕ) (a x b : ℕ) (xs ys : List ℕ)
    → Linked next prev a (xs ++ x ∷ ys) b
    → Linked next prev a xs x × Linked next prev x ys b
Linked-append next prev a x b [] ys (f, g, l) = ((f, g), l)
Linked-append next prev a x b (y ∷ xs) ys (f, g, l) =
    let r = Linked-append next prev y x b xs ys l in ((f, g, r.0), r.1)

-- The last node before `b`, and the first behind `a`.
Linked-prev :
    (next prev : ℕ → ℕ) (a b q : ℕ) (xs : List ℕ)
    → Linked next prev a xs b
    → q ≢ a
    → NotIn q xs
    → q ≢ prev b
Linked-prev next prev a b q [] (f, g) ne h = λ e. ne (e ∙ g)
Linked-prev next prev a b q (x ∷ xs) (f, g, l) ne (nx, h) = Linked-prev next prev x b q xs l nx h

Linked-next :
    (next prev : ℕ → ℕ) (a b q : ℕ) (xs : List ℕ)
    → Linked next prev a xs b
    → q ≢ b
    → NotIn q xs
    → q ≢ next a
Linked-next next prev a b q [] (f, g) ne h = λ e. ne (e ∙ f)
Linked-next next prev a b q (x ∷ xs) (f, g, l) ne (nx, h) = λ e. nx (e ∙ f)

-- The pointers on both sides of `x` made to point past it.
Linked-join :
    (next prev : ℕ → ℕ) (a x b : ℕ) (xs ys : List ℕ)
    → NotIn a (xs ++ ys)
    → Apart (xs ++ ys)
    → NotIn b (xs ++ ys)
    → Linked next prev a xs x
    → Linked next prev x ys b
    → Linked (link next (prev x) (next x)) (link prev (next x) (prev x)) a (xs ++ ys) b
Linked-join next prev a x b [] [] na all nb (f, g) (f', g') =
    rw (g, f') (link_self next a b, link_self prev b a)
Linked-join next prev a x b [] (y ∷ ys) (nay, na) (ny, all) (nby, nb) (f, g) (f', g', l) = (
  rw (g, f') (link_self next a y),
  rw (g, f') (link_self prev y a),
  Linked-frame next prev y b (prev x) (next x) (next x) (prev x) ys (λ e. nay (sym g ∙ e))
      (subst (λ q. NotIn q ys) (sym g) na) (subst (λ q. NotIn q ys) (sym f') ny)
      (λ e. nby (sym (sym f' ∙ e))) l,
)
Linked-join next prev a x b (z ∷ xs) ys (naz, na) (nz, all) (nbz, nb) (f, g, l) r = (
  link-other next (prev x) (next x) a
        (λ e. Linked-prev next prev z x a xs l naz (NotIn-append a xs ys na).0 (sym e))
      ∙ f,
  link-other prev (next x) (prev x) z (λ e.
        Linked-next next prev x b z ys r (λ e'. nbz (sym e')) (NotIn-append z xs ys nz).1 (sym e))
      ∙ g,
  Linked-join next prev z x b xs ys nz all nb l r,
)

-- The cache's pointers are the ring of `xs`.
pub record IsRing (c : Cache) (xs : List ℕ) : Type 0 where
  pub linked : Linked c.next c.prev head xs head
  pub apart : Apart xs
  pub off_head : NotIn head xs

-- `x` leaves the ring.
pub unlink-IsRing :
    (c : Cache) (xs : List ℕ) (x : ℕ) (ys : List ℕ)
    → IsRing c (xs ++ x ∷ ys)
    → IsRing (unlink x c) (xs ++ ys)
unfolding unlink
unlink-IsRing c xs x ys r = record {
  linked =
      let p = Linked-append c.next c.prev head x head xs ys r.linked in
      let same : link c.prev (c.next x) (c.prev x) x ≡ c.prev x = ground arith in
      subst
        (λ q.
          Linked (link c.next q (c.next x)) (link c.prev (c.next x) (c.prev x)) head (xs ++ ys)
            head)
        (sym same)
        (Linked-join c.next c.prev head x head xs ys off_head.1 others.1 off_head.1 p.0 p.1);
  apart = others.1;
  off_head = off_head.1;
}
  where
    others : NotIn x (xs ++ ys) × Apart (xs ++ ys)
    others = Apart-without x xs ys r.apart

    off_head : (head ≢ x) × NotIn head (xs ++ ys)
    off_head = NotIn-without head x xs ys r.off_head

-- `x` put between `h` and what follows it.
Linked-front :
    (next prev : ℕ → ℕ) (h x n : ℕ) (xs : List ℕ)
    → x ≢ h
    → NotIn x xs
    → NotIn h xs
    → Apart xs
    → n ≡ next h
    → Linked next prev h xs h
    → Linked (link (link next x (next h)) h x) (link (link prev x h) n x) x xs h
Linked-front next prev h x n [] ne nx nh all at (f, g) = (
  link-other (link next x (next h)) h x x (λ e. ne (sym e)) ∙ link_self next x (next h) ∙ f,
  rw (at ∙ f) (link_self (link prev x h) h x),
)
Linked-front next prev h x n (y ∷ ys) ne (nxy, nx) (nhy, nh) (ny, all) at (f, g, l) = (
  link-other (link next x (next h)) h x x (λ e. ne (sym e)) ∙ link_self next x (next h) ∙ f,
  rw (at ∙ f) (link_self (link prev x h) y x),
  Linked-frame (link next x (next h)) (link prev x h) y h h x n x ys nhy nh
      (subst (λ q. NotIn q ys) (sym (at ∙ f)) ny) (λ e'. nhy (sym e' ∙ at ∙ f))
      (Linked-frame next prev y h x (next h) x h ys nxy nx nx ne l),
)

-- A buffer that is not in the ring becomes its first.
pub to_front-IsRing :
    (c : Cache) (xs : List ℕ) (x : ℕ)
    → IsRing c xs
    → x ≢ head
    → NotIn x xs
    → IsRing (to_front x c) (x ∷ xs)
unfolding to_front
to_front-IsRing c xs x r ne h = record {
  linked = (
    refl,
    link-other (link c.prev x head) (link c.next x (c.next head) head) x x
          (λ e. Linked-next c.next c.prev head head x xs r.linked ne h (sym e ∙ first))
        ∙ link_self c.prev x head,
    Linked-front c.next c.prev head x (link c.next x (c.next head) head) xs ne h r.off_head r.apart
        first r.linked,
  );
  apart = (h, r.apart);
  off_head = (λ e. ne (sym e), r.off_head);
}
  where
    first : link c.next x (c.next head) head ≡ c.next head
    first = link-other c.next x (c.next head) head ne
