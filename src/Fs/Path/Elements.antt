-- ===== src/Fs/Path/Elements.antt =====
-- The names that repeated calls of `skipelem` yield.
use os_ass.Fs.Path.{slash, dirsiz, skip_slashes, element, take, next_element, skipelem}
use os_ass.Common.{
  ℕ, zero, suc, ◌≤◌, ◌<◌, ◌≡◌, refl, sym, ap, ◌∙◌, ◌⊎◌, inl, inr, false, none, some, List, [], ◌∷◌,
  map, arith, ◌==◌, if◌then◌else◌, Bool-cases, ==_iff, length,
}

-- The names that a loop over `skipelem`, as in `namex`, sees.
unfoldable pub names : (rounds : ℕ) → List ℕ → List (List ℕ)
names zero path = []
names (suc r) path = elim (skipelem path) [ none ↦ [] | some (name, rest) ↦ name ∷ names r rest ]

-- The parts between slashes, the empty ones too.
abbrev pub add_char : ℕ → List (List ℕ) → List (List ℕ)
add_char c [] = (c ∷ []) ∷ []
add_char c (p ∷ ps) = (c ∷ p) ∷ ps

unfoldable pub parts : List ℕ → List (List ℕ)
parts [] = [] ∷ []
parts (c ∷ path) = let rest = parts path in if c == slash then [] ∷ rest else add_char c rest

-- Those that are not empty.
unfoldable pub nonempty : List (List ℕ) → List (List ℕ)
nonempty [] = []
nonempty ([] ∷ ps) = nonempty ps
nonempty ((c ∷ p) ∷ ps) = (c ∷ p) ∷ nonempty ps

nonempty-skip_slashes :
    (path : List ℕ) → nonempty (parts (skip_slashes path)) ≡ nonempty (parts path)
unfolding skip_slashes parts nonempty
nonempty-skip_slashes [] = refl
nonempty-skip_slashes (c ∷ path) = elim (Bool-cases (c == slash)) [
  | inl s ↦ rw s (nonempty-skip_slashes path)
  | inr n ↦ rw n (rw n refl)
]

-- A path in parts: its first element, and the parts behind it.
parts-element :
    (path : List ℕ)
    → (((element path).1 ≡ []) × (parts path ≡ (element path).0 ∷ []))
      ⊎ ((rest : List ℕ) × ((element path).1 ≡ slash ∷ rest)
          × (parts path ≡ (element path).0 ∷ parts rest))
unfolding element parts
parts-element [] = inl (refl, refl)
parts-element (c ∷ path) = elim (Bool-cases (c == slash)) [
  | inl s ↦ inr (path, rw s (ap (λ d. d ∷ path) ((==_iff c slash).0 s)), rw s refl)
  | inr n ↦ elim (parts-element path) [
    | inl (e, p) ↦ inl (rw n e, rw (n, p) refl)
    | inr (rest, e, p) ↦ inr (rest, rw n e, rw (n, p) refl)
  ]
]

length-element : (path : List ℕ) → length (element path).1 ≤ length path
unfolding element
length-element [] = omega arith
length-element (c ∷ path) = elim (Bool-cases (c == slash)) [
  | inl s ↦ rw s (omega arith)
  | inr n ↦ rw n (omega (arith, length-element path))
]

length-skip_slashes : (path : List ℕ) → length (skip_slashes path) ≤ length path
unfolding skip_slashes
length-skip_slashes [] = omega arith
length-skip_slashes (c ∷ path) = elim (Bool-cases (c == slash)) [
  | inl s ↦ rw s (omega (arith, length-skip_slashes path))
  | inr n ↦ rw n (omega arith)
]

-- What `skip_slashes` leaves does not start with a slash.
abbrev NoSlash : List ℕ → Type 0
NoSlash [] = Unit
NoSlash (c ∷ path) = (c == slash) ≡ false

skip_slashes-NoSlash : (path : List ℕ) → NoSlash (skip_slashes path)
unfolding skip_slashes
skip_slashes-NoSlash [] = tt
skip_slashes-NoSlash (c ∷ path) = elim (Bool-cases (c == slash)) [
  | inl s ↦ rw s (skip_slashes-NoSlash path)
  | inr n ↦ rw n n
]

abbrev listed : List ℕ → List (List ℕ)
listed path = map (take dirsiz) (nonempty (parts path))

names_nil : (r : ℕ) → names r [] ≡ []
unfolding names skipelem skip_slashes
names_nil zero = refl
names_nil (suc r) = refl

-- The first element is not empty.
first_stays :
    (c : ℕ) (path : List ℕ)
    → (c == slash) ≡ false
    → (ps : List (List ℕ))
    → nonempty ((element (c ∷ path)).0 ∷ ps) ≡ (element (c ∷ path)).0 ∷ nonempty ps
unfolding element nonempty
first_stays c path n ps = rw n refl

names-skipped :
    (r : ℕ) (path : List ℕ)
    → NoSlash path
    → ((rest : List ℕ) → length rest < length path → names r (skip_slashes rest) ≡ listed rest)
    → (elim (next_element path) [ none ↦ [] | some (name, rest) ↦ name ∷ names r rest ])
      ≡ listed path
unfolding parts nonempty skip_slashes
names-skipped r [] ns later = refl
names-skipped r (c ∷ path) ns later = elim (parts-element (c ∷ path)) [
  | inl (e, p) ↦
      ap (λ q. name ∷ names r (skip_slashes q)) e
      ∙ ap (λ ns. name ∷ ns) (names_nil r)
      ∙ sym (ap (map (take dirsiz)) (ap nonempty p ∙ first_stays c path ns []))
  | inr (rest, e, p) ↦
      ap (λ q. name ∷ names r (skip_slashes q)) e
      ∙ ap (λ ns. name ∷ ns) (later rest (shorter rest e))
      ∙ sym (ap (map (take dirsiz)) (ap nonempty p ∙ first_stays c path ns (parts rest)))
]
  where
    name : List ℕ
    name = take dirsiz (element (c ∷ path)).0

    shorter :
        (rest : List ℕ) → (element (c ∷ path)).1 ≡ slash ∷ rest → length rest < suc (length path)
    shorter rest e = omega (arith, length-element (c ∷ path), ap length e)

-- The names that a loop over `skipelem` sees are the parts of the path between slashes, the empty ones
-- left out, each cut off after DIRSIZ characters; as many rounds as the path has characters and one
-- are enough for all of them.
pub names-parts :
    (r : ℕ) (path : List ℕ)
    → length path < r
    → names r path ≡ map (take dirsiz) (nonempty (parts path))
unfolding names skipelem
names-parts zero path lt = absurd (omega arith)
names-parts (suc r) path lt =
    names-skipped r (skip_slashes path) (skip_slashes-NoSlash path) (λ rest shorter.
      names-parts r (skip_slashes rest)
        (omega (arith, length-skip_slashes rest, length-skip_slashes path, shorter, lt))
      ∙ ap (map (take dirsiz)) (nonempty-skip_slashes rest))
    ∙ ap (map (take dirsiz)) (nonempty-skip_slashes path)
