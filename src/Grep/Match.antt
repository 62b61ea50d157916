-- ===== src/Grep/Match.antt =====
-- `match` and its helpers decide what a pattern means.
use os_ass.Grep.{
  dollar, asterisk, dot, caret, match_one, matchstar, is_empty, matchhere, match_from, match,
}
use os_ass.Grep.Pattern.{items, anchored, Fits, AllFit, Starts, Occurs, Matches}
use mathlib.Core.Bool.{false≢true}
use os_ass.Common.{
  ℕ, ◌≡◌, refl, sym, ap, ◌≢◌, ◌↔◌, inl, inr, Bool, true, false, ◌||◌, List, [], ◌∷◌, ◌++◌, arith,
  ◌==◌, Bool-cases, ==_iff, ==_refl,
}

test→Fits : (c x : ℕ) → (c == dot || c == x) ≡ true → Fits c x
test→Fits c x h = elim (Bool-cases (c == dot)) [
  | inl d ↦ inl ((==_iff c dot).0 d)
  | inr d ↦ inr ((==_iff c x).0 (rw d at h))
]

Fits→test : (c x : ℕ) → Fits c x → (c == dot || c == x) ≡ true
Fits→test c x (inl e) = rw e refl
Fits→test c x (inr e) = elim (Bool-cases (c == dot)) [
  | inl d ↦ rw d refl
  | inr d ↦ rw (d, e) (==_refl x)
]

module _ (c : ℕ) (here : List ℕ → Bool) (P : List ℕ → Type 0) where
  abbrev One : List ℕ → Type 0
  One text = (x : ℕ) × (rest : List ℕ) × (text ≡ x ∷ rest) × Fits c x × P rest

  abbrev Star : List ℕ → Type 0
  Star text = (xs : List ℕ) × (rest : List ℕ) × (text ≡ xs ++ rest) × AllFit c xs × P rest

  match_one_sound :
      (sound : (t : List ℕ) → here t ≡ true → P t) (text : List ℕ)
      → match_one c here text ≡ true
      → One text
  unfolding match_one
  match_one_sound sound [] h = absurd (ground arith)
  match_one_sound sound (x ∷ text) h = elim (Bool-cases (c == dot || c == x)) [
    | inl fits ↦ (x, text, refl, test→Fits c x fits, sound text (rw fits at h))
    | inr not_fits ↦ absurd (false≢true (rw not_fits at h))
  ]

  One-complete :
      (complete : (t : List ℕ) → P t → here t ≡ true) (text : List ℕ)
      → One text
      → match_one c here text ≡ true
  unfolding match_one
  One-complete complete text (x, rest, e, f, p) =
      rw (e, match_one, Fits→test c x f) (complete rest p)

  take_one : (x : ℕ) (text : List ℕ) → Fits c x → Star text → Star (x ∷ text)
  take_one x text f (xs, rest, e, all, p) = (x ∷ xs, rest, ap (λ t. x ∷ t) e, (f, all), p)

  matchstar_sound :
      (sound : (t : List ℕ) → here t ≡ true → P t) (text : List ℕ)
      → matchstar c here text ≡ true
      → Star text
  unfolding matchstar
  matchstar_sound sound [] h = ([], [], refl, tt, sound [] h)
  matchstar_sound sound (x ∷ text) h = elim (Bool-cases (here (x ∷ text))) [
    | inl now ↦ ([], x ∷ text, refl, tt, sound (x ∷ text) now)
    | inr later ↦ elim (Bool-cases (x == c || c == dot)) [
      | inl fits ↦ take_one x text (flip fits) (matchstar_sound sound text (rw (later, fits) at h))
      | inr not_fits ↦ absurd (false≢true (rw (later, not_fits) at h))
    ]
  ]
    where
      flip : (x == c || c == dot) ≡ true → Fits c x
      flip h = elim (Bool-cases (x == c)) [
        | inl d ↦ inr (sym ((==_iff x c).0 d))
        | inr d ↦ inl ((==_iff c dot).0 (rw d at h))
      ]

  matchstar_complete :
      (complete : (t : List ℕ) → P t → here t ≡ true) (xs rest : List ℕ)
      → AllFit c xs
      → P rest
      → matchstar c here (xs ++ rest) ≡ true
  unfolding matchstar
  matchstar_complete complete [] [] all p = complete [] p
  matchstar_complete complete [] (x ∷ rest) all p = rw (matchstar, complete (x ∷ rest) p) refl
  matchstar_complete complete (x ∷ xs) rest (f, all) p =
      elim (Bool-cases (here (x ∷ (xs ++ rest)))) [
        | inl now ↦ rw now refl
        | inr later ↦ rw (later, flip f) (matchstar_complete complete xs rest all p)
      ]
    where
      flip : Fits c x → (x == c || c == dot) ≡ true
      flip (inl e) = elim (Bool-cases (x == c)) [ inl d ↦ rw d refl | inr d ↦ rw (d, e) refl ]
      flip (inr e) = rw (e, ==_refl x) refl

  Star-complete :
      (complete : (t : List ℕ) → P t → here t ≡ true) (text : List ℕ)
      → Star text
      → matchstar c here text ≡ true
  Star-complete complete text (xs, rest, e, all, p) =
      rw e (matchstar_complete complete xs rest all p)

Starts-nil : (text : List ℕ) → Starts [] false text
Starts-nil text h = absurd (false≢true h)

matchhere_sound :
    (re text : List ℕ) → matchhere re text ≡ true → Starts (items re) (anchored re) text
unfolding matchhere items anchored
matchhere_sound [] text h = Starts-nil text
matchhere_sound (c ∷ []) text h = elim (Bool-cases (c == dollar)) [
  | inl d ↦ rw d (λ _. emptied text (rw d at h))
  | inr nd ↦
      rw nd
        (match_one_sound c (matchhere []) (Starts [] false) (λ t _. Starts-nil t) text (rw nd at h))
]
  where
    emptied : (text : List ℕ) → is_empty text ≡ true → text ≡ []
    emptied [] h = refl
    emptied (x ∷ text) h = absurd (false≢true h)
matchhere_sound (c ∷ d ∷ re) text h = elim (Bool-cases (d == asterisk)) [
  | inl s ↦ rw s (
      matchstar_sound c (matchhere re) (Starts (items re) (anchored re)) (matchhere_sound re) text
        (rw s at h))
  | inr ns ↦ rw ns (
      match_one_sound c (matchhere (d ∷ re)) (Starts (items (d ∷ re)) (anchored (d ∷ re)))
        (matchhere_sound (d ∷ re)) text (rw ns at h))
]

matchhere_complete :
    (re text : List ℕ) → Starts (items re) (anchored re) text → matchhere re text ≡ true
unfolding matchhere items anchored
matchhere_complete [] text h = refl
matchhere_complete (c ∷ []) text h = elim (Bool-cases (c == dollar)) [
  | inl d ↦ rw (d, (rw d at h) refl) refl
  | inr nd ↦ rw nd (One-complete c (matchhere []) (Starts [] false) (λ t _. refl) text (rw nd at h))
]
matchhere_complete (c ∷ d ∷ re) text h = elim (Bool-cases (d == asterisk)) [
  | inl s ↦ rw s (
      Star-complete c (matchhere re) (Starts (items re) (anchored re)) (matchhere_complete re) text
        (rw s at h))
  | inr ns ↦ rw ns (
      One-complete c (matchhere (d ∷ re)) (Starts (items (d ∷ re)) (anchored (d ∷ re)))
        (matchhere_complete (d ∷ re)) text (rw ns at h))
]

match_from_sound : (re text : List ℕ) → match_from re text ≡ true → Occurs re text
unfolding match_from
match_from_sound re [] h = ([], [], refl, matchhere_sound re [] h)
match_from_sound re (x ∷ text) h = elim (Bool-cases (matchhere re (x ∷ text))) [
  | inl now ↦ ([], x ∷ text, refl, matchhere_sound re (x ∷ text) now)
  | inr later ↦ shift (match_from_sound re text (rw later at h))
]
  where
    shift : Occurs re text → Occurs re (x ∷ text)
    shift (before, rest, e, p) = (x ∷ before, rest, ap (λ t. x ∷ t) e, p)

match_from_complete :
    (re before rest : List ℕ)
    → Starts (items re) (anchored re) rest
    → match_from re (before ++ rest) ≡ true
unfolding match_from
match_from_complete re [] [] p = matchhere_complete re [] p
match_from_complete re [] (x ∷ rest) p = rw (match_from, matchhere_complete re (x ∷ rest) p) refl
match_from_complete re (x ∷ before) rest p =
    elim (Bool-cases (matchhere re (x ∷ (before ++ rest)))) [
      | inl now ↦ rw now refl
      | inr later ↦ rw later (match_from_complete re before rest p)
    ]

match_from_iff : (re text : List ℕ) → (match_from re text ≡ true) ↔ Occurs re text
match_from_iff re text = (match_from_sound re text, found)
  where
    found : Occurs re text → match_from re text ≡ true
    found (before, rest, e, p) = rw e (match_from_complete re before rest p)

-- `match` answers 1 exactly if some part of the text is made of a piece for each item of the pattern: a
-- character that fits, or for a starred one any number of such; with a `^` the part is at the start of
-- the text, with a last `$` at its end.
pub match-Matches : (re text : List ℕ) → (match re text ≡ true) ↔ Matches re text
unfolding match
match-Matches [] text = match_from_iff [] text
match-Matches (c ∷ re) text = elim (Bool-cases (c == caret)) [
  | inl at ↦
      let e : c ≡ caret = (==_iff c caret).0 at in
      rw at (λ h. inl (e, matchhere_sound re text h), at_start e)
  | inr not_at ↦
      let ne : c ≢ caret = λ e. absurd (false≢true (rw (sym not_at, e) refl)) in
      rw not_at (λ h. inr (ne, (match_from_iff (c ∷ re) text).0 h), anywhere ne)
]
  where
    at_start : c ≡ caret → Matches (c ∷ re) text → matchhere re text ≡ true
    at_start e (inl (_, p)) = matchhere_complete re text p
    at_start e (inr (ne, _)) = absurd (ne e)

    anywhere : c ≢ caret → Matches (c ∷ re) text → match_from (c ∷ re) text ≡ true
    anywhere ne (inl (e, _)) = absurd (ne e)
    anywhere ne (inr (_, p)) = (match_from_iff (c ∷ re) text).1 p
