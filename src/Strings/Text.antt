-- ===== src/Strings/Text.antt =====
-- C strings, read as the lists of their characters.
use mathlib.Core.Path.{ap₂}
use os_ass.Common.Int.{ℤ, pos}
use os_ass.Common.Memory.{Memory, store_byte, AgreeOn}
use os_ass.Strings.{difference, strncmp, copy_text, safestrcpy}
use os_ass.Common.{
  ℕ, zero, suc, ◌+◌, ◌≤◌, ◌<◌, ◌≡◌, refl, sym, ap, ◌∙◌, ◌≢◌, ◌↔◌, ◌⊎◌, inl, inr, true, false, not,
  ◌&&◌, List, [], ◌∷◌, arith, ◌==◌, if◌then◌else◌, Bool-cases, ==_iff, length,
}

-- The characters at `p` before a NUL, `n` at most.
unfoldable pub text : Memory → (p n : ℕ) → List ℕ
text m p zero = []
text m p (suc n) = let rest = m p ∷ text m (p + 1) n in if m p == 0 then [] else rest

text-AgreeOn : (m m' : Memory) (p n : ℕ) → AgreeOn p n m m' → text m' p n ≡ text m p n
unfolding text
text-AgreeOn m m' p zero same = refl
text-AgreeOn m m' p (suc n) same =
    rw
      (
        same p (omega arith) (omega arith),
        text-AgreeOn m m' (p + 1) n (λ x h h'. same x (omega arith) (omega arith)),
      )
      refl

difference-zero : (a b : ℕ) → difference a b ≡ pos 0 → a ≡ b
difference-zero a b h = ground arith

difference_self : (a : ℕ) → difference a a ≡ pos 0
difference_self a = ground arith

cons_inj : {a b : ℕ} {u v : List ℕ} → a ∷ u ≡ b ∷ v → (a ≡ b) × (u ≡ v)
cons_inj e = (cc, cc)

suc_nonzero : (a : ℕ) → (suc a == 0) ≡ false
suc_nonzero a = ground arith

-- One character of the comparison.
first_character :
    (a b : ℕ) (r : ℤ) (u v : List ℕ)
    → (r ≡ pos 0) ↔ (u ≡ v)
    → ((if not (a == 0) && a == b then r else difference a b) ≡ pos 0)
      ↔ ((if a == 0 then [] else a ∷ u) ≡ (if b == 0 then [] else b ∷ v))
first_character zero zero r u v i = (λ h. refl, λ h. refl)
first_character zero (suc b) r u v i = (λ h. absurd (ground arith), λ h. absurd (ground arith))
first_character (suc a) zero r u v i = (λ h. absurd (ground arith), λ h. absurd (ground arith))
first_character (suc a) (suc b) r u v i = elim (Bool-cases (suc a == suc b)) [
  | inl e ↦
      let same : suc a ≡ suc b = (==_iff (suc a) (suc b)).0 e in
      rw (e, suc_nonzero a, suc_nonzero b) (λ h. ap₂ ◌∷◌ same (i.0 h), λ h. i.1 (cons_inj h).1)
  | inr ne ↦
      rw (ne, suc_nonzero a, suc_nonzero b)
        (
          λ h. absurd (differ ne (difference-zero (suc a) (suc b) h)),
          λ h. absurd (differ ne (cons_inj h).0),
        )
]
  where
    differ : (suc a == suc b) ≡ false → suc a ≢ suc b
    differ ne e = absurd (ground arith)

-- `strncmp` answers 0 exactly if the two strings, cut off after `n` characters, are the same.
pub strncmp-text : (m : Memory) (p q n : ℕ) → (strncmp m p q n ≡ pos 0) ↔ (text m p n ≡ text m q n)
unfolding strncmp text
strncmp-text m p q zero = (λ h. refl, λ h. refl)
strncmp-text m p q (suc n) =
    first_character (m p) (m q) (strncmp m (p + 1) (q + 1) n) (text m (p + 1) n) (text m (q + 1) n)
      (strncmp-text m (p + 1) (q + 1) n)

copy_text-outside :
    (s t n : ℕ) (m : Memory) (x : ℕ) → (x < s) ⊎ (s + n < x) → copy_text s t n m x ≡ m x
unfolding copy_text store_byte
copy_text-outside s t zero m x h = ground arith
copy_text-outside s t (suc n) m x h = elim (Bool-cases (m t == 0)) [
  | inl z ↦ rw (copy_text, z) (ground arith)
  | inr nz ↦
      rw (copy_text, nz)
        (copy_text-outside (s + 1) (t + 1) n (store_byte m s (m t)) x (later h) ∙ ground arith)
]
  where
    later : (x < s) ⊎ (s + suc n < x) → (x < s + 1) ⊎ (s + 1 + n < x)
    later h = omega arith

text_end : (m : Memory) (p n : ℕ) → (m p == 0) ≡ true → text m p (suc n) ≡ []
unfolding text
text_end m p n z = rw z refl

text_character :
    (m : Memory) (p n : ℕ) → (m p == 0) ≡ false → text m p (suc n) ≡ m p ∷ text m (p + 1) n
unfolding text
text_character m p n nz = rw nz refl

copy_text-text :
    (s t n : ℕ) (m : Memory)
    → (s + n < t) ⊎ (t + n ≤ s)
    → text (copy_text s t n m) s (suc n) ≡ text m t n
unfolding copy_text text store_byte
copy_text-text s t zero m h = ground arith
copy_text-text s t (suc n) m h = elim (Bool-cases (m t == 0)) [
  | inl z ↦ text_end (copy_text s t (suc n) m) s (suc n) (ended z) ∙ sym (text_end m t n z)
  | inr nz ↦
      let m' = store_byte m s (m t) in
      let rest : copy_text s t (suc n) m ≡ copy_text (s + 1) (t + 1) n m' =
        rw (copy_text, nz) refl in
      let here : copy_text (s + 1) (t + 1) n m' s ≡ m t =
        copy_text-outside (s + 1) (t + 1) n m' s (inl (omega arith)) ∙ ground arith in
      ap (λ q. text q s (suc (suc n))) rest
      ∙ (text_character (copy_text (s + 1) (t + 1) n m') s (suc n) (rw here nz)
          ∙ ap₂ ◌∷◌ here (
              copy_text-text (s + 1) (t + 1) n m' (omega arith)
              ∙ text-AgreeOn m m' (t + 1) n (λ x p q. kept x p q))
          ∙ sym (text_character m t n nz))
]
  where
    ended : (m t == 0) ≡ true → (copy_text s t (suc n) m s == 0) ≡ true
    ended z = rw (copy_text, z) (ground arith)

    kept : (x : ℕ) → t + 1 ≤ x → x < t + 1 + n → store_byte m s (m t) x ≡ m x
    kept x p q = ground arith

length-text : (m : Memory) (p n : ℕ) → length (text m p n) ≤ n
unfolding text
length-text m p zero = omega arith
length-text m p (suc n) = elim (Bool-cases (m p == 0)) [
  | inl z ↦ rw z (omega arith)
  | inr nz ↦ rw nz (omega (arith, length-text m (p + 1) n))
]

-- `safestrcpy` with room for `n + 1` bytes, from a string that does not overlap the destination: the
-- destination holds the first `n` characters of the string, a NUL ends it within its room, and no byte
-- outside the room is changed.
pub safestrcpy-Bounded :
    (s t n : ℕ) (m : Memory)
    → (s + n < t) ⊎ (t + n ≤ s)
    → (text (safestrcpy s t (pos (suc n)) m) s (suc n) ≡ text m t n)
      × (length (text (safestrcpy s t (pos (suc n)) m) s (suc n)) < suc n)
      × ((x : ℕ) → (x < s) ⊎ (s + n < x) → safestrcpy s t (pos (suc n)) m x ≡ m x)
unfolding safestrcpy
safestrcpy-Bounded s t n m h =
    let same = copy_text-text s t n m h in
    (same, rw same (omega (arith, length-text m t n)), λ x out. copy_text-outside s t n m x out)
