-- ===== src/Grep.antt =====
-- grep.c: the matcher of patterns, and the loop that prints the matching lines. A C string is the list
-- of its characters before the NUL.
pub mod Pattern
pub mod Match
pub mod Lines
pub mod Output
mod Tests
use mathlib.Core.Option
use os_ass.Common.{
  ℕ, zero, suc, ◌+◌, ◌-◌, ◌*◌, ◌/◌, ◌%◌, ◌^◌, ◌≤◌, ◌<◌, min, ◌≡◌, refl, sym, ap, ◌∙◌, ◌≢◌, ◌↔◌, ◌⊎◌,
  inl, inr, Bool, true, false, not, ◌&&◌, ◌||◌, Option, none, some, List, [], ◌∷◌, ◌++◌, map, arith,
  ltb, leb, ◌==◌, if◌then◌else◌, Bool-cases, Option-cases, ltb→lt, lt→ltb, ==_iff, ==_refl, length,
  get_elem?, get_or, set, replicate, length-append, length-map, length-set, length-replicate,
  get_elem?-set, get_or-set, get_elem?-lt-length, modify, length-modify, get_elem?-modify,
  get_elem?-append, modify-append, find_from, find_index, IsFirst, find_index-IsFirst,
  find_index-none, Outcome, done, panic, ◌>>=◌, done_inj, some_inj,
}

abbrev pub newline : ℕ
newline = 10

abbrev pub dollar : ℕ
dollar = 0x24

abbrev pub asterisk : ℕ
asterisk = 0x2A

abbrev pub dot : ℕ
dot = 0x2E

abbrev pub caret : ℕ
caret = 0x5E

-- The last test of `matchhere`, and what it calls on the rest of the text.
unfoldable pub match_one : (c : ℕ) (here : List ℕ → Bool) → List ℕ → Bool
match_one c here [] = false
match_one c here (x ∷ text) = let rest = here text in if c == dot || c == x then rest else false

-- `here` is `matchhere(re, -)`.
unfoldable pub matchstar : (c : ℕ) (here : List ℕ → Bool) → List ℕ → Bool
matchstar c here [] = here []
matchstar c here (x ∷ text) =
    let rest = matchstar c here text in
    if here (x ∷ text) then true else if x == c || c == dot then rest else false

abbrev pub is_empty : List ℕ → Bool
is_empty [] = true
is_empty (x ∷ text) = false

unfoldable pub matchhere : (re text : List ℕ) → Bool
matchhere [] text = true
matchhere (c ∷ []) text = if c == dollar then is_empty text else match_one c (matchhere []) text
matchhere (c ∷ d ∷ re) text =
    let star = matchstar c (matchhere re) text in
    let one = match_one c (matchhere (d ∷ re)) text in if d == asterisk then star else one

-- The loop of `match` over the suffixes of the text, the empty one too.
unfoldable pub match_from : (re text : List ℕ) → Bool
match_from re [] = matchhere re []
match_from re (x ∷ text) =
    let rest = match_from re text in if matchhere re (x ∷ text) then true else rest

unfoldable pub match : (re text : List ℕ) → Bool
match [] text = match_from [] text
match (c ∷ re) text = if c == caret then matchhere re text else match_from (c ∷ re) text

-- What is before and behind the first `c`, in a text that a NUL may end.
unfoldable pub strchr : List ℕ → (c : ℕ) → Option (List ℕ × List ℕ)
strchr [] c = none
strchr (x ∷ text) c =
    let rest = Option.map (λ (p : List ℕ × List ℕ). (x ∷ p.0, p.1)) (strchr text c) in
    if x == 0 then none else if x == c then some ([], text) else rest

-- The inner loop: what is written, and what is left from `p` on. A round consumes a newline at least.
unfoldable pub scan_lines : (rounds : ℕ) (re text : List ℕ) → List ℕ × List ℕ
scan_lines zero re text = ([], text)
scan_lines (suc r) re text = elim (strchr text newline) [
  | none ↦ ([], text)
  | some (line, rest) ↦
      let more = scan_lines r re rest in
      ((if match re line then line ++ newline ∷ more.0 else more.0), more.1)
]

-- `if(p == buf) m = 0;` and the move of the rest to the front.
abbrev pub kept : (text rest : List ℕ) → List ℕ
kept text rest = if length rest == length text then [] else rest

-- `sizeof(buf)-1`
abbrev pub room : ℕ
room = 1023

-- The outer loop, on what the calls of `read` return, one after the other; it ends at the first that
-- returns nothing, as one with no room left does. The result is what is written.
unfoldable pub grep : (re text : List ℕ) (reads : List (List ℕ)) → List ℕ
grep re text [] = []
grep re text (chunk ∷ reads) =
    let buf = text ++ chunk in
    let r = scan_lines (length buf) re buf in
    let rest = grep re (kept buf r.1) reads in
    if is_empty chunk || leb room (length text) then [] else r.0 ++ rest
