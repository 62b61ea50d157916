-- ===== src/Grep/Pattern.antt =====
-- What a pattern of grep.c means, by its parts.
use os_ass.Grep.{dollar, asterisk, dot, caret}
use os_ass.Common.{ℕ, ◌≡◌, ◌≢◌, ◌⊎◌, Bool, true, false, List, [], ◌∷◌, ◌++◌, ◌==◌, if◌then◌else◌}

-- A character that stands once or any number of times.
pub data Item : Type 0 where
  one : ℕ → Item
  star : ℕ → Item

-- The items of a pattern without its `^`, and whether it ends in a `$` of its own.
unfoldable pub items : List ℕ → List Item
items [] = []
items (c ∷ []) = if c == dollar then [] else one c ∷ []
items (c ∷ d ∷ re) =
    let starred = star c ∷ items re in
    let plain = one c ∷ items (d ∷ re) in if d == asterisk then starred else plain

unfoldable pub anchored : List ℕ → Bool
anchored [] = false
anchored (c ∷ []) = c == dollar
anchored (c ∷ d ∷ re) =
    let starred = anchored re in
    let plain = anchored (d ∷ re) in if d == asterisk then starred else plain

abbrev pub Fits : (c x : ℕ) → Type 0
Fits c x = (c ≡ dot) ⊎ (c ≡ x)

abbrev pub AllFit : (c : ℕ) → List ℕ → Type 0
AllFit c [] = Unit
AllFit c (x ∷ xs) = Fits c x × AllFit c xs

-- The text is cut into a piece for each item and a rest, which is empty if the pattern is anchored at
-- its end.
abbrev pub Starts : List Item → Bool → List ℕ → Type 0
Starts [] at_end text = at_end ≡ true → text ≡ []
Starts (one c ∷ is) at_end text =
    (x : ℕ) × (rest : List ℕ) × (text ≡ x ∷ rest) × Fits c x × Starts is at_end rest
Starts (star c ∷ is) at_end text =
    (xs : List ℕ) × (rest : List ℕ) × (text ≡ xs ++ rest) × AllFit c xs × Starts is at_end rest

-- Some part of the text, from its start with a `^`.
abbrev pub Occurs : (re text : List ℕ) → Type 0
Occurs re text =
    (before : List ℕ) × (rest : List ℕ) × (text ≡ before ++ rest)
    × Starts (items re) (anchored re) rest

abbrev pub Matches : (re text : List ℕ) → Type 0
Matches [] text = Occurs [] text
Matches (c ∷ re) text =
    ((c ≡ caret) × Starts (items re) (anchored re) text) ⊎ ((c ≢ caret) × Occurs (c ∷ re) text)
