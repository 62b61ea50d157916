-- ===== src/Common/Lists.antt =====
-- C arrays and linked lists as lists, measured and indexed by native numbers.
use Prim.Native.Nat.{ℕ, zero, suc, ◌+◌, ◌<◌}
use mathlib.Core.Path.{◌≡◌, refl, ap}
use mathlib.Core.Logic.{◌≢◌, ◌⊎◌, inl, inr}
use mathlib.Core.Bool.{Bool, true, false}
use mathlib.Core.List.{List, [], ◌∷◌, ◌++◌, map}
use mathlib.Core.Option
use mathlib.Core.Option.{Option, none, some}
use native.Mathlib.Omega.{arith}
use os_ass.Common.Tests.{if◌then◌else◌, ◌==◌, Bool-cases}

module _ {ℓ} {A : Type ℓ} where
  abbrev pub length : List A → ℕ
  length [] = 0
  length (x ∷ xs) = suc (length xs)

  abbrev pub get_elem? : List A → ℕ → Option A
  get_elem? [] i = none
  get_elem? (x ∷ xs) zero = some x
  get_elem? (x ∷ xs) (suc i) = get_elem? xs i

  abbrev pub get_or : List A → ℕ → A → A
  get_or [] i d = d
  get_or (x ∷ xs) zero d = x
  get_or (x ∷ xs) (suc i) d = get_or xs i d

  -- A write out of bounds changes nothing.
  abbrev pub set : List A → ℕ → A → List A
  set [] i v = []
  set (x ∷ xs) zero v = v ∷ xs
  set (x ∷ xs) (suc i) v = x ∷ set xs i v

  -- `t[i]` changed in place; nothing happens out of bounds.
  abbrev pub modify : List A → ℕ → (A → A) → List A
  modify [] i f = []
  modify (x ∷ xs) zero f = f x ∷ xs
  modify (x ∷ xs) (suc i) f = x ∷ modify xs i f

  abbrev pub replicate : ℕ → A → List A
  replicate zero a = []
  replicate (suc n) a = a ∷ replicate n a

  -- The index of the first element that passes a test, counted from `i`: the loop
  -- `for(p = t; p < &t[N]; p++) if(test(p)) goto found;`
  unfoldable pub find_from : (A → Bool) → ℕ → List A → Option ℕ
  find_from test i [] = none
  find_from test i (x ∷ xs) =
      let rest = find_from test (suc i) xs in if test x then some i else rest

module _ {ℓ} {A : Type ℓ} where
  unfoldable pub find_index : (A → Bool) → List A → Option ℕ
  unfolding find_from
  find_index test xs = find_from test 0 xs

  pub length-append : (xs ys : List A) → length (xs ++ ys) ≡ length xs + length ys
  length-append [] ys = omega arith
  length-append (x ∷ xs) ys = omega (arith, length-append xs ys)

  pub length-set : (xs : List A) (i : ℕ) (v : A) → length (set xs i v) ≡ length xs
  length-set [] i v = refl
  length-set (x ∷ xs) zero v = refl
  length-set (x ∷ xs) (suc i) v = ap suc (length-set xs i v)

  pub length-modify : (xs : List A) (i : ℕ) (f : A → A) → length (modify xs i f) ≡ length xs
  length-modify [] i f = refl
  length-modify (x ∷ xs) zero f = refl
  length-modify (x ∷ xs) (suc i) f = ap suc (length-modify xs i f)

  pub get_elem?-modify :
      (xs : List A) (i j : ℕ) (f : A → A)
      → get_elem? (modify xs i f) j
        ≡ (if i == j then Option.map f (get_elem? xs j) else get_elem? xs j)
  get_elem?-modify [] i j f = ground arith
  get_elem?-modify (x ∷ xs) zero zero f = refl
  get_elem?-modify (x ∷ xs) zero (suc j) f = ground arith
  get_elem?-modify (x ∷ xs) (suc i) zero f = ground arith
  get_elem?-modify (x ∷ xs) (suc i) (suc j) f = ground (arith, get_elem?-modify xs i j f)

  pub get_elem?-modify_self :
      (xs : List A) (i : ℕ) (f : A → A) (x : A)
      → get_elem? xs i ≡ some x
      → get_elem? (modify xs i f) i ≡ some (f x)
  get_elem?-modify_self [] i f x h = absurd (ground arith)
  get_elem?-modify_self (y ∷ xs) zero f x h = ap (Option.map f) h
  get_elem?-modify_self (y ∷ xs) (suc i) f x h = get_elem?-modify_self xs i f x h

  pub get_elem?-modify_ne :
      (xs : List A) (i j : ℕ) (f : A → A) → i ≢ j → get_elem? (modify xs i f) j ≡ get_elem? xs j
  get_elem?-modify_ne xs i j f ne = ground (arith, get_elem?-modify xs i j f)

  pub get_elem?-modify-none :
      (xs : List A) (i j : ℕ) (f : A → A)
      → get_elem? xs j ≡ none
      → get_elem? (modify xs i f) j ≡ none
  get_elem?-modify-none xs i j f e = ground (arith, get_elem?-modify xs i j f)

  -- Where an entry of a modified table comes from.
  pub modify_inv :
      (xs : List A) (i j : ℕ) (f : A → A) (y : A)
      → get_elem? (modify xs i f) j ≡ some y
      → ((i ≡ j) × ((x : A) × (get_elem? xs j ≡ some x) × (y ≡ f x)))
        ⊎ ((i ≢ j) × (get_elem? xs j ≡ some y))
  modify_inv [] i j f y h = absurd (ground arith)
  modify_inv (x ∷ xs) zero zero f y h = inl (refl, (x, refl, ground arith))
  modify_inv (x ∷ xs) zero (suc j) f y h = inr (omega arith, h)
  modify_inv (x ∷ xs) (suc i) zero f y h = inr (omega arith, h)
  modify_inv (x ∷ xs) (suc i) (suc j) f y h = elim (modify_inv xs i j f y h) [
    | inl (e, r) ↦ inl (omega arith, r)
    | inr (ne, r) ↦ inr (omega arith, r)
  ]

  pub get_elem?-map :
      (xs : List A) (j : ℕ) (f : A → A) → get_elem? (map f xs) j ≡ Option.map f (get_elem? xs j)
  get_elem?-map [] j f = refl
  get_elem?-map (x ∷ xs) zero f = refl
  get_elem?-map (x ∷ xs) (suc j) f = get_elem?-map xs j f

  pub get_elem?-append :
      (xs : List A) (y : A) (ys : List A) → get_elem? (xs ++ y ∷ ys) (length xs) ≡ some y
  get_elem?-append [] y ys = refl
  get_elem?-append (x ∷ xs) y ys = get_elem?-append xs y ys

  pub modify-append :
      (xs : List A) (y : A) (ys : List A) (f : A → A)
      → modify (xs ++ y ∷ ys) (length xs) f ≡ xs ++ f y ∷ ys
  modify-append [] y ys f = refl
  modify-append (x ∷ xs) y ys f = ap (λ zs. x ∷ zs) (modify-append xs y ys f)

  pub length-replicate : (n : ℕ) (a : A) → length (replicate n a) ≡ n
  length-replicate zero a = refl
  length-replicate (suc n) a = ap suc (length-replicate n a)

  -- Reading after a write, in one equation.
  pub get_elem?-set :
      (xs : List A) (i j : ℕ) (v : A)
      → i < length xs
      → get_elem? (set xs i v) j ≡ (if i == j then some v else get_elem? xs j)
  get_elem?-set [] i j v h = absurd (omega arith)
  get_elem?-set (x ∷ xs) zero zero v h = refl
  get_elem?-set (x ∷ xs) zero (suc j) v h = ground arith
  get_elem?-set (x ∷ xs) (suc i) zero v h = ground arith
  get_elem?-set (x ∷ xs) (suc i) (suc j) v h = ground (arith, get_elem?-set xs i j v)

  pub get_or-set :
      (xs : List A) (i j : ℕ) (v d : A)
      → i < length xs
      → get_or (set xs i v) j d ≡ (if i == j then v else get_or xs j d)
  get_or-set [] i j v d h = absurd (omega arith)
  get_or-set (x ∷ xs) zero zero v d h = refl
  get_or-set (x ∷ xs) zero (suc j) v d h = ground arith
  get_or-set (x ∷ xs) (suc i) zero v d h = ground arith
  get_or-set (x ∷ xs) (suc i) (suc j) v d h = ground (arith, get_or-set xs i j v d)

  pub get_elem?-lt-length : (xs : List A) (i : ℕ) (x : A) → get_elem? xs i ≡ some x → i < length xs
  get_elem?-lt-length [] i x h = absurd (ground arith)
  get_elem?-lt-length (y ∷ xs) zero x h = omega arith
  get_elem?-lt-length (y ∷ xs) (suc i) x h = omega (arith, get_elem?-lt-length xs i x h)

pub length-map {ℓ κ} :
    {A : Type ℓ} {B : Type κ} (f : A → B) (xs : List A) → length (map f xs) ≡ length xs
length-map f [] = refl
length-map f (x ∷ xs) = ap suc (length-map f xs)

module _ {ℓ} {A : Type ℓ} (test : A → Bool) where
  -- What a successful scan found: the first element that passes.
  pub record FoundFrom (start : ℕ) (xs : List A) (k : ℕ) : Type ℓ where
    pub offset : ℕ
    pub elem : A
    pub at : k ≡ start + offset
    pub here : get_elem? xs offset ≡ some elem
    pub passes : test elem ≡ true
    pub first : (j : ℕ) (y : A) → j < offset → get_elem? xs j ≡ some y → test y ≡ false

  pub find_from-FoundFrom :
      (start : ℕ) (xs : List A) (k : ℕ) → find_from test start xs ≡ some k → FoundFrom start xs k
  unfolding find_from
  find_from-FoundFrom start [] k h = absurd (ground arith)
  find_from-FoundFrom start (x ∷ xs) k h = elim (Bool-cases (test x)) [
    | inl hit ↦ record {
      offset = 0;
      elem = x;
      at = ground arith;
      here = refl;
      passes = hit;
      first = λ j y lt e. absurd (omega arith);
    }
    | inr miss ↦ skip miss (find_from-FoundFrom (suc start) xs k (ground arith))
  ]
    where
      earlier :
          (n j : ℕ) (y : A)
          → ((i : ℕ) (z : A) → i < n → get_elem? xs i ≡ some z → test z ≡ false)
          → test x ≡ false
          → j < suc n
          → get_elem? (x ∷ xs) j ≡ some y
          → test y ≡ false
      earlier n zero y f miss lt e = ground arith
      earlier n (suc j) y f miss lt e = f j y (omega arith) e

      skip : test x ≡ false → FoundFrom (suc start) xs k → FoundFrom start (x ∷ xs) k
      skip miss r = record {
        offset = suc r.offset;
        elem = r.elem;
        at = omega (arith, r.at);
        here = r.here;
        passes = r.passes;
        first = λ j y lt e. earlier r.offset j y r.first miss lt e;
      }

  pub find_from-none :
      (start : ℕ) (xs : List A)
      → find_from test start xs ≡ none
      → (j : ℕ) (y : A) → get_elem? xs j ≡ some y
      → test y ≡ false
  unfolding find_from
  find_from-none start [] h j y e = ground arith
  find_from-none start (x ∷ xs) h zero y e = ground arith
  find_from-none start (x ∷ xs) h (suc j) y e = find_from-none (suc start) xs (ground arith) j y e

  -- The scan stops at the first element that passes.
  pub record IsFirst (xs : List A) (k : ℕ) : Type ℓ where
    pub elem : A
    pub here : get_elem? xs k ≡ some elem
    pub passes : test elem ≡ true
    pub first : (j : ℕ) (y : A) → j < k → get_elem? xs j ≡ some y → test y ≡ false

  pub find_index-IsFirst : (xs : List A) (k : ℕ) → find_index test xs ≡ some k → IsFirst xs k
  unfolding find_index
  find_index-IsFirst xs k h = record {
    elem = r.elem;
    here = rw offset r.here;
    passes = r.passes;
    first = λ j y lt e. r.first j y (omega (arith, r.at)) e;
  }
    where
      r : FoundFrom 0 xs k
      r = find_from-FoundFrom 0 xs k h

      offset : k ≡ r.offset
      offset = omega (arith, r.at)

  pub find_index-none :
      (xs : List A)
      → find_index test xs ≡ none
      → (j : ℕ) (y : A) → get_elem? xs j ≡ some y
      → test y ≡ false
  unfolding find_index
  find_index-none xs h j y e = find_from-none 0 xs h j y e
