-- ===== src/Grep/Tests.antt =====
-- Patterns and inputs of grep.c that run.
use os_ass.Grep.{match, grep, matchhere, match_one, matchstar, scan_lines, strchr}
use os_ass.Grep.Pattern.{Matches}
use os_ass.Grep.Match.{match-Matches}
use os_ass.Grep.Lines.{split, printed}
use os_ass.Grep.Output.{concat, grep-printed}
use os_ass.Common.{ℕ, suc, ◌≡◌, refl, ◌≢◌, ◌↔◌, inl, inr, true, false, List, [], ◌∷◌, arith}

-- `^ab*.$`, and the texts "abbc" and "xab".
abbrev pattern_1 : List ℕ
pattern_1 = 0x5E ∷ 0x61 ∷ 0x62 ∷ 0x2A ∷ 0x2E ∷ 0x24 ∷ []

abbrev abbc : List ℕ
abbc = 0x61 ∷ 0x62 ∷ 0x62 ∷ 0x63 ∷ []

abbrev xab : List ℕ
xab = 0x78 ∷ 0x61 ∷ 0x62 ∷ []

matches_abbc : match pattern_1 abbc ≡ true
unfolding match matchhere match_one matchstar
matches_abbc = refl

differs_xab : match pattern_1 xab ≡ false
unfolding match matchhere match_one matchstar
differs_xab = refl

match-Matches_example : (match pattern_1 abbc ≡ true) ↔ Matches pattern_1 abbc
match-Matches_example = match-Matches pattern_1 abbc

-- "abbc\nxa" and "b\n"
abbrev reads_1 : List (List ℕ)
reads_1 = (0x61 ∷ 0x62 ∷ 0x62 ∷ 0x63 ∷ 10 ∷ 0x78 ∷ 0x61 ∷ []) ∷ (0x62 ∷ 10 ∷ []) ∷ []

grep_1 : grep pattern_1 [] reads_1 ≡ 0x61 ∷ 0x62 ∷ 0x62 ∷ 0x63 ∷ 10 ∷ []
unfolding grep scan_lines strchr match matchhere match_one matchstar
grep_1 = refl

-- A line that two reads bring, the first without a newline, loses its first part.
grep_cut : grep (0x5E ∷ 0x61 ∷ []) [] ((0x62 ∷ []) ∷ (0x61 ∷ 10 ∷ []) ∷ []) ≡ 0x61 ∷ 10 ∷ []
unfolding grep scan_lines strchr match matchhere match_one matchstar
grep_cut = refl

grep-printed_example : grep pattern_1 [] reads_1 ≡ printed pattern_1 (split (concat reads_1)).0
unfolding split
grep-printed_example = grep-printed pattern_1 reads_1 (
  omega arith,
  (nz 0x60, (nz 0x61, (nz 0x61, (nz 0x62, (nz 9, (nz 0x77, (nz 0x60, tt))))))),
  inr (inr (inr (inr (inl refl)))),
  (omega arith, (nz 0x61, (nz 9, tt)), inr (inl refl), tt),
)
  where
    nz : (n : ℕ) → suc n ≢ 0
    nz n e = absurd (omega arith)
