-- ===== src/Bio/Walk.antt =====
-- `walk` along the ring, in terms of the list that the ring holds.
use mathlib.Core.Bool.{false≢true}
use os_ass.Bio.{head, walk}
use os_ass.Bio.Ring.{NotIn, Linked}
use os_ass.Common.{
  ℕ, zero, suc, ◌+◌, ◌-◌, ◌<◌, ◌≡◌, refl, sym, ap, ◌∙◌, ◌⊎◌, inl, inr, Bool, true, false, Option,
  none, some, List, [], ◌∷◌, ◌++◌, arith, ◌==◌, if◌then◌else◌, Bool-cases, length,
}

-- The first and the last of a list that pass.
unfoldable pub first : (ℕ → Bool) → List ℕ → Option ℕ
first test [] = none
first test (x ∷ xs) = let rest = first test xs in if test x then some x else rest

abbrev pub or_else : Option ℕ → Option ℕ → Option ℕ
or_else (some x) o = some x
or_else none o = o

unfoldable pub last : (ℕ → Bool) → List ℕ → Option ℕ
last test [] = none
last test (x ∷ xs) = or_else (last test xs) (if test x then some x else none)

pub walk-first :
    (next prev : ℕ → ℕ) (test : ℕ → Bool) (r a : ℕ) (xs : List ℕ)
    → Linked next prev a xs head
    → NotIn head xs
    → length xs < r
    → walk r next test (next a) ≡ first test xs
unfolding walk first
walk-first next prev test zero a xs l off lt = absurd (omega arith)
walk-first next prev test (suc r) a [] (f, g) off lt = rw f refl
walk-first next prev test (suc r) a (x ∷ xs) (f, g, l) (ne, off) lt =
    let on = walk-first next prev test r x xs l off (omega arith) in
    let inside : (x == head) ≡ false = ground arith in rw (f, inside, on) refl

or_else_assoc : (o p q : Option ℕ) → or_else o (or_else p q) ≡ or_else (or_else o p) q
or_else_assoc (some x) p q = refl
or_else_assoc none p q = refl

walk-back :
    (next prev : ℕ → ℕ) (test : ℕ → Bool) (n r a b : ℕ) (xs : List ℕ)
    → Linked next prev a xs b
    → NotIn head xs
    → n ≡ length xs + r
    → walk n prev test (prev b) ≡ or_else (last test xs) (walk r prev test a)
unfolding walk last
walk-back next prev test n r a b [] (f, g) off e =
    let same : n ≡ r = omega (arith, e) in rw (g, same) refl
walk-back next prev test n r a b (x ∷ xs) (f, g, l) (ne, off) e =
    walk-back next prev test n (suc r) x b xs l off (omega (arith, e))
    ∙ rw (inside, g)
        (ap (or_else (last test xs)) (here (test x)) ∙ or_else_assoc (last test xs) _ _)
  where
    inside : (x == head) ≡ false
    inside = ground arith

    here :
        (t : Bool)
        → (if t then some x else walk r prev test a)
          ≡ or_else (if t then some x else none) (walk r prev test a)
    here true = refl
    here false = refl

walk-head : (prev : ℕ → ℕ) (test : ℕ → Bool) (r : ℕ) → walk r prev test head ≡ none
unfolding walk
walk-head prev test zero = refl
walk-head prev test (suc r) = refl

or_else-none : (o : Option ℕ) → or_else o none ≡ o
or_else-none (some x) = refl
or_else-none none = refl

pub walk-last :
    (next prev : ℕ → ℕ) (test : ℕ → Bool) (r : ℕ) (xs : List ℕ)
    → Linked next prev head xs head
    → NotIn head xs
    → length xs < r
    → walk r prev test (prev head) ≡ last test xs
walk-last next prev test r xs l off lt =
    walk-back next prev test r (r - length xs) head head xs l off (omega arith)
    ∙ ap (or_else (last test xs)) (walk-head prev test (r - length xs))
    ∙ or_else-none (last test xs)

-- None of a list passes.
abbrev pub NoneOf : (ℕ → Bool) → List ℕ → Type 0
NoneOf test [] = Unit
NoneOf test (x ∷ xs) = (test x ≡ false) × NoneOf test xs

pub NoneOf-NotIn :
    (test : ℕ → Bool) (i : ℕ) (xs : List ℕ) → NoneOf test xs → test i ≡ true → NotIn i xs
NoneOf-NotIn test i [] h t = tt
NoneOf-NotIn test i (x ∷ xs) (f, h) t =
    (λ e. false≢true (sym f ∙ ap test (sym e) ∙ t), NoneOf-NotIn test i xs h t)

-- What `first` and `last` answer.
pub first-answers :
    (test : ℕ → Bool) (xs : List ℕ)
    → ((x : ℕ) × (first test xs ≡ some x) × (test x ≡ true))
      ⊎ ((first test xs ≡ none) × NoneOf test xs)
unfolding first
first-answers test [] = inr (refl, tt)
first-answers test (x ∷ xs) = elim (Bool-cases (test x)) [
  | inl t ↦ inl (x, rw t refl, t)
  | inr f ↦ elim (first-answers test xs) [
    | inl (y, e, t) ↦ inl (y, rw f e, t)
    | inr (e, h) ↦ inr (rw f e, (f, h))
  ]
]

pub last-answers :
    (test : ℕ → Bool) (xs : List ℕ)
    → ((x : ℕ) × (l : List ℕ) × (r : List ℕ) × (last test xs ≡ some x)
        × (test x ≡ true)
        × (xs ≡ l ++ x ∷ r)
        × NoneOf test r)
      ⊎ ((last test xs ≡ none) × NoneOf test xs)
unfolding last
last-answers test [] = inr (refl, tt)
last-answers test (x ∷ xs) = elim (last-answers test xs) [
  | inl (y, l, r, e, t, at, h) ↦ inl (y, x ∷ l, r, rw e refl, t, ap (λ ys. x ∷ ys) at, h)
  | inr (e, h) ↦ elim (Bool-cases (test x)) [
    | inl t ↦ inl (x, [], xs, rw (e, t) refl, t, refl, h)
    | inr f ↦ inr (rw (e, f) refl, (f, h))
  ]
]
