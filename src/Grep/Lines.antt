-- ===== src/Grep/Lines.antt =====
-- A text cut into its lines, and what the inner loop of `grep` makes of it.
use mathlib.Core.List
use mathlib.Core.Bool.{false≢true}
use os_ass.Grep.{newline, match, strchr, scan_lines}
use mathlib.Core.Option
use os_ass.Common.{
  ℕ, zero, suc, ◌≤◌, ◌<◌, ◌≡◌, refl, sym, ◌≢◌, ◌⊎◌, inl, inr, false, Option, none, some, List, [],
  ◌∷◌, ◌++◌, arith, ◌==◌, if◌then◌else◌, Bool-cases, Option-cases, ==_iff, length,
}

abbrev pub add_char : ℕ → List (List ℕ) × List ℕ → List (List ℕ) × List ℕ
add_char x ([], rest) = ([], x ∷ rest)
add_char x (l ∷ ls, rest) = ((x ∷ l) ∷ ls, rest)

-- The lines that a newline ends, and the rest behind the last newline.
unfoldable pub split : List ℕ → List (List ℕ) × List ℕ
split [] = ([], [])
split (x ∷ text) =
    let more = split text in if x == newline then ([] ∷ more.0, more.1) else add_char x more

-- The lines that match, each with its newline.
unfoldable pub printed : (re : List ℕ) → List (List ℕ) → List ℕ
printed re [] = []
printed re (l ∷ ls) = let rest = printed re ls in if match re l then l ++ newline ∷ rest else rest

abbrev pub NoNul : List ℕ → Type 0
NoNul [] = Unit
NoNul (x ∷ text) = (x ≢ 0) × NoNul text

abbrev pub HasNewline : List ℕ → Type 0
HasNewline [] = ⊥
HasNewline (x ∷ text) = (x ≡ newline) ⊎ HasNewline text

-- What `strchr` answers, in terms of the lines.
abbrev Cuts : List ℕ → Option (List ℕ × List ℕ) → Type 0
Cuts text none = split text ≡ ([], text)
Cuts text (some (line, rest)) =
    (split text ≡ (line ∷ (split rest).0, (split rest).1))
    × (length rest < length text)
    × NoNul rest

add_char-Cuts :
    (x : ℕ) (text : List ℕ) (o : Option (List ℕ × List ℕ))
    → (x == newline) ≡ false
    → Cuts text o
    → Cuts (x ∷ text) (Option.map (λ (p : List ℕ × List ℕ). (x ∷ p.0, p.1)) o)
unfolding split
add_char-Cuts x text none nn c = rw (nn, c) refl
add_char-Cuts x text (some (line, rest)) nn (e, lt, ok) = (rw (nn, e) refl, omega arith, ok)

strchr-Cuts : (text : List ℕ) → NoNul text → Cuts text (strchr text newline)
unfolding strchr split
strchr-Cuts [] h = refl
strchr-Cuts (x ∷ text) (nz, h) = elim (Bool-cases (x == newline)) [
  | inl nl ↦ rw (not_nul, nl) (rw nl refl, omega arith, h)
  | inr nn ↦ rw (not_nul, nn) (add_char-Cuts x text (strchr text newline) nn (strchr-Cuts text h))
]
  where
    not_nul : (x == 0) ≡ false
    not_nul = elim (Bool-cases (x == 0)) [ inl z ↦ absurd (nz ((==_iff x 0).0 z)) | inr z ↦ z ]

-- On a text without NULs, with a round for each character, the inner loop prints the matching lines and
-- leaves the rest.
pub scan_lines-split :
    (r : ℕ) (re text : List ℕ)
    → NoNul text
    → length text ≤ r
    → scan_lines r re text ≡ (printed re (split text).0, (split text).1)
unfolding scan_lines printed split
scan_lines-split zero re [] h le = refl
scan_lines-split zero re (x ∷ text) h le = absurd (omega arith)
scan_lines-split (suc r) re text h le = elim (Option-cases (strchr text newline)) [
  | inl e ↦ let c = rw e at (strchr-Cuts text h) in rw (e, scan_lines, c, printed) refl
  | inr ((line, rest), e) ↦
      let c = rw e at (strchr-Cuts text h) in
      rw (e, scan_lines, c.0, printed, scan_lines-split r re rest c.2 (omega (arith, c.1, le))) refl
]

length-split : (text : List ℕ) → length (split text).1 ≤ length text
unfolding split
length-split [] = omega arith
length-split (x ∷ text) = elim (Bool-cases (x == newline)) [
  | inl nl ↦ rw nl (omega (arith, length-split text))
  | inr nn ↦ rw nn (grows (split text) (length-split text))
]
  where
    grows :
        (p : List (List ℕ) × List ℕ)
        → length p.1 ≤ length text
        → length (add_char x p).1 ≤ suc (length text)
    grows ([], rest) h = omega arith
    grows (l ∷ ls, rest) h = omega arith

pub HasNewline-shorter : (text : List ℕ) → HasNewline text → length (split text).1 < length text
unfolding split
HasNewline-shorter [] h = absurd h
HasNewline-shorter (x ∷ text) h = elim (Bool-cases (x == newline)) [
  | inl nl ↦ rw nl (omega (arith, length-split text))
  | inr nn ↦ rw nn (grows (split text) (HasNewline-shorter text (later nn h)))
]
  where
    later : (x == newline) ≡ false → HasNewline (x ∷ text) → HasNewline text
    later nn (inl e) = absurd (false≢true (rw (sym nn, e) refl))
    later nn (inr h) = h

    grows :
        (p : List (List ℕ) × List ℕ)
        → length p.1 < length text
        → length (add_char x p).1 < suc (length text)
    grows ([], rest) h = omega arith
    grows (l ∷ ls, rest) h = omega arith

-- A text that comes in two parts has the lines of the first, and then those of its rest with the second.
pub split-append :
    (xs ys : List ℕ)
    → split (xs ++ ys)
      ≡ ((split xs).0 ++ (split ((split xs).1 ++ ys)).0, (split ((split xs).1 ++ ys)).1)
unfolding split
split-append [] ys = refl
split-append (x ∷ xs) ys = elim (Bool-cases (x == newline)) [
  | inl nl ↦ rw (nl, split-append xs ys) refl
  | inr nn ↦ rw (nn, split-append xs ys) (under nn (split xs))
]
  where
    under :
        (x == newline) ≡ false
        → (p : List (List ℕ) × List ℕ)
        → add_char x (p.0 ++ (split (p.1 ++ ys)).0, (split (p.1 ++ ys)).1) ≡ (
          (add_char x p).0 ++ (split ((add_char x p).1 ++ ys)).0,
          (split ((add_char x p).1 ++ ys)).1,
        )
    under nn ([], rest) = rw (nn, split) refl
    under nn (l ∷ ls, rest) = refl

pub printed-append :
    (re : List ℕ) (ls more : List (List ℕ))
    → printed re (ls ++ more) ≡ printed re ls ++ printed re more
unfolding printed
printed-append re [] more = refl
printed-append re (l ∷ ls) more = elim (Bool-cases (match re l)) [
  | inl hit ↦
      rw (hit, printed-append re ls more) (sym (List.append_assoc l (newline ∷ printed re ls) _))
  | inr miss ↦ rw (miss, printed-append re ls more) refl
]

-- The rest holds no complete line.
pub split_rest : (text : List ℕ) → split (split text).1 ≡ ([], (split text).1)
unfolding split
split_rest [] = refl
split_rest (x ∷ text) = elim (Bool-cases (x == newline)) [
  | inl nl ↦ rw nl (split_rest text)
  | inr nn ↦ rw nn (under nn (split text) (split_rest text))
]
  where
    under :
        (x == newline) ≡ false
        → (p : List (List ℕ) × List ℕ) → split p.1 ≡ ([], p.1)
        → split (add_char x p).1 ≡ ([], (add_char x p).1)
    under nn ([], rest) e = rw (split, nn, e) refl
    under nn (l ∷ ls, rest) e = e

pub NoNul-rest : (text : List ℕ) → NoNul text → NoNul (split text).1
unfolding split
NoNul-rest [] h = h
NoNul-rest (x ∷ text) (nz, h) = elim (Bool-cases (x == newline)) [
  | inl nl ↦ rw nl (NoNul-rest text h)
  | inr nn ↦ rw nn (under (split text) (NoNul-rest text h))
]
  where
    under : (p : List (List ℕ) × List ℕ) → NoNul p.1 → NoNul (add_char x p).1
    under ([], rest) k = (nz, k)
    under (l ∷ ls, rest) k = k
