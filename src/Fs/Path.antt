-- ===== src/Fs/Path.antt =====
-- fs.c: `skipelem`, the elements of a path. A path is the list of its characters before the NUL.
pub mod Elements
use mathlib.Core.Option
use os_ass.Common.{
  ℕ, zero, suc, ◌+◌, ◌-◌, ◌*◌, ◌/◌, ◌%◌, ◌^◌, ◌≤◌, ◌<◌, min, ◌≡◌, refl, sym, ap, ◌∙◌, ◌≢◌, ◌↔◌, ◌⊎◌,
  inl, inr, Bool, true, false, not, ◌&&◌, ◌||◌, Option, none, some, List, [], ◌∷◌, ◌++◌, map, arith,
  ltb, leb, ◌==◌, if◌then◌else◌, Bool-cases, Option-cases, ltb→lt, lt→ltb, ==_iff, ==_refl, length,
  get_elem?, get_or, set, replicate, length-append, length-map, length-set, length-replicate,
  get_elem?-set, get_or-set, get_elem?-lt-length, modify, length-modify, get_elem?-modify,
  get_elem?-append, modify-append, find_from, find_index, IsFirst, find_index-IsFirst,
  find_index-none, Outcome, done, panic, ◌>>=◌, done_inj, some_inj,
}

abbrev pub slash : ℕ
slash = 0x2F

-- `DIRSIZ`
abbrev pub dirsiz : ℕ
dirsiz = 14

-- `while(*path == '/') path++;`
unfoldable pub skip_slashes : List ℕ → List ℕ
skip_slashes [] = []
skip_slashes (c ∷ path) = let rest = skip_slashes path in if c == slash then rest else c ∷ path

-- What the next loop passes, and where it stops.
unfoldable pub element : List ℕ → List ℕ × List ℕ
element [] = ([], [])
element (c ∷ path) =
    let more = element path in if c == slash then ([], c ∷ path) else (c ∷ more.0, more.1)

-- The first `n` characters, as `memmove` puts them into `name`
unfoldable pub take : (n : ℕ) → List ℕ → List ℕ
take zero xs = []
take (suc n) [] = []
take (suc n) (x ∷ xs) = x ∷ take n xs

-- The name, and the path behind the element; `none` for the null pointer.
abbrev pub next_element : List ℕ → Option (List ℕ × List ℕ)
next_element [] = none
next_element (c ∷ path) =
    some (take dirsiz (element (c ∷ path)).0, skip_slashes (element (c ∷ path)).1)

unfoldable pub skipelem : List ℕ → Option (List ℕ × List ℕ)
skipelem path = next_element (skip_slashes path)
