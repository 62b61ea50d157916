-- ===== src/Fs/Blocks/Scan.antt =====
-- The scan of `balloc` for a block that is not in use.
use mathlib.Core.Path.{subst}
use os_ass.Fs.{Fs, bpb}
use os_ass.Fs.Blocks.{bblock, is_clear, scan_bits, scan_map}
use os_ass.Fs.Blocks.Bitmap.{bit_of, used, is_clear_lem}
use os_ass.Common.{
  ℕ, zero, suc, ◌+◌, ◌-◌, ◌*◌, ◌/◌, ◌%◌, ◌≤◌, ◌<◌, ◌≡◌, refl, sym, ap, ◌∙◌, inl, inr, true, false,
  none, some, arith, ltb, ◌==◌, Bool-cases, Option-cases, ==_iff, some_inj,
}

-- What a scan of one block of the map from bit `bi` on has seen before `stop`.
abbrev SetFrom : Fs → (b bi stop : ℕ) → Type 0
SetFrom s b bi stop =
    (i : ℕ) → bi ≤ i → i < stop → b + i < s.sb.size → bit_of (s.blocks (bblock s b)) i ≡ true

scan_bits-some :
    (r bi : ℕ) (s : Fs) (b i : ℕ)
    → scan_bits r bi s b ≡ some i
    → (bi ≤ i)
      × (i < bi + r)
      × (b + i < s.sb.size)
      × (bit_of (s.blocks (bblock s b)) i ≡ false)
      × SetFrom s b bi i
unfolding scan_bits
scan_bits-some zero bi s b i e = absurd (cc)
scan_bits-some (suc r) bi s b i e = elim (Bool-cases (ltb (b + bi) s.sb.size)) [
  | inl inside ↦ elim (Bool-cases (is_clear (s.blocks (bblock s b)) bi)) [
    | inl clear ↦
        let at : bi ≡ i = some_inj (rw (scan_bits, inside, clear) at e) in
        rw (sym at) (
          omega arith,
          omega arith,
          ground arith,
          ground (arith, is_clear_lem (s.blocks (bblock s b)) bi),
          λ j p q. absurd (omega arith),
        )
    | inr in_use ↦
        let (lo, hi, fits, free, before) =
          scan_bits-some r (suc bi) s b i (rw (scan_bits, inside, in_use) at e) in
        (
          omega arith,
          omega arith,
          fits,
          free,
          λ j p q h. elim (Bool-cases (bi == j)) [
            | inl same ↦
                subst (λ k. bit_of (s.blocks (bblock s b)) k ≡ true) ((==_iff bi j).0 same)
                  (ground (arith, is_clear_lem (s.blocks (bblock s b)) bi))
            | inr other ↦ before j (ground arith) q h
          ],
        )
  ]
  | inr outside ↦ absurd (ground arith)
]

scan_bits-none : (r bi : ℕ) (s : Fs) (b : ℕ) → scan_bits r bi s b ≡ none → SetFrom s b bi (bi + r)
unfolding scan_bits
scan_bits-none zero bi s b e = λ j p q h. absurd (omega arith)
scan_bits-none (suc r) bi s b e = λ j p q h. elim (Bool-cases (bi == j)) [
  | inl same ↦
      subst (λ k. bit_of (s.blocks (bblock s b)) k ≡ true) ((==_iff bi j).0 same)
        (ground (arith, is_clear_lem (s.blocks (bblock s b)) bi))
  | inr other ↦
      scan_bits-none r (suc bi) s b (ground (arith, is_clear_lem (s.blocks (bblock s b)) bi)) j
        (ground arith) (omega arith) h
]

-- The bit for block `b + i`, where `b` is the first that a block of the map speaks of.
pub used-at :
    (s : Fs) (g i : ℕ) → i < bpb → used s (g * bpb + i) ≡ bit_of (s.blocks (bblock s (g * bpb))) i
used-at s g i h =
    let e : (g * bpb + i) / bpb ≡ g * bpb / bpb = omega arith in
    let f : (g * bpb + i) % bpb ≡ i = omega arith in rw (e, f) refl

-- Every block from `b` up to `stop` is in use.
abbrev pub UsedFrom : Fs → (b stop : ℕ) → Type 0
UsedFrom s b stop = (j : ℕ) → b ≤ j → j < stop → j < s.sb.size → used s j ≡ true

group-UsedFrom :
    (s : Fs) (g stop : ℕ)
    → stop ≤ bpb
    → SetFrom s (g * bpb) 0 stop
    → UsedFrom s (g * bpb) (g * bpb + stop)
group-UsedFrom s g stop le h j p q fits =
    let e : g * bpb + (j - g * bpb) ≡ j = omega arith in
    subst (λ k. used s k ≡ true) e
      (used-at s g (j - g * bpb) (omega arith)
        ∙ h (j - g * bpb) (omega arith) (omega arith) (omega arith))

-- The block that a scan of the map finds.
pub record FirstFree (s : Fs) (b c : ℕ) : Type 0 where
  pub from : b ≤ c
  pub inside : c < s.sb.size
  pub free : used s c ≡ false
  pub before : UsedFrom s b c

pub scan_map-some :
    (r g : ℕ) (s : Fs) (b' i : ℕ)
    → scan_map r (g * bpb) s ≡ some (b', i)
    → (bblock s b' ≡ bblock s (b' + i)) × (i ≡ (b' + i) % bpb) × FirstFree s (g * bpb) (b' + i)
unfolding scan_map
scan_map-some zero g s b' i e = absurd (cc)
scan_map-some (suc r) g s b' i e = elim (Bool-cases (ltb (g * bpb) s.sb.size)) [
  | inr past ↦ absurd (cc (rw (scan_map, past) at e))
  | inl more ↦ elim (Option-cases (scan_bits bpb 0 s (g * bpb))) [
    | inl none_here ↦
        let next : g * bpb + bpb ≡ suc g * bpb = omega arith in
        let (same, at, f) =
          scan_map-some r (suc g) s b' i (rw (scan_map, more, none_here, next) at e) in
        (
          same,
          at,
          record {
            from = omega (arith, f.from);
            inside = f.inside;
            free = f.free;
            before = λ j p q h. elim (Bool-cases (ltb j (g * bpb + bpb))) [
              | inl here ↦
                  group-UsedFrom s g bpb (omega arith) (scan_bits-none bpb 0 s (g * bpb) none_here)
                    j p (ground arith) h
              | inr later ↦ f.before j (ground arith) q h
            ];
          },
        )
    | inr (k, found) ↦
        let (lo, hi, fits, free, before) = scan_bits-some bpb 0 s (g * bpb) k found in
        let here : (g * bpb, k) ≡ (b', i) = some_inj (rw (scan_map, more, found) at e) in
        let atb : g * bpb ≡ b' = ap (λ (p : ℕ × ℕ). p.0) here in
        let ati : k ≡ i = ap (λ (p : ℕ × ℕ). p.1) here in
        rw (sym atb, sym ati)
          (
            (let q : (g * bpb + k) / bpb ≡ g * bpb / bpb = omega arith in rw q refl),
            omega arith,
            record {
              from = omega arith;
              inside = fits;
              free = used-at s g k (omega arith) ∙ free;
              before = group-UsedFrom s g k (omega arith) before;
            },
          )
  ]
]

pub scan_map-none :
    (r g : ℕ) (s : Fs) → scan_map r (g * bpb) s ≡ none → UsedFrom s (g * bpb) ((g + r) * bpb)
unfolding scan_map
scan_map-none zero g s e = λ j p q h. absurd (omega arith)
scan_map-none (suc r) g s e = λ j p q h. elim (Bool-cases (ltb j (g * bpb + bpb))) [
  | inl here ↦
      group-UsedFrom s g bpb (omega arith)
        (scan_bits-none bpb 0 s (g * bpb) (scanned (omega arith))) j p (ground arith) h
  | inr later ↦
      let next : g * bpb + bpb ≡ suc g * bpb = omega arith in
      scan_map-none r (suc g) s (rw next at (rest (ground arith))) j (ground arith) (omega arith) h
]
  where
    test : g * bpb < s.sb.size → ltb (g * bpb) s.sb.size ≡ true
    test h = ground arith

    scanned : g * bpb < s.sb.size → scan_bits bpb 0 s (g * bpb) ≡ none
    scanned h = elim (Option-cases (scan_bits bpb 0 s (g * bpb))) [
      | inl none_here ↦ none_here
      | inr (k, found) ↦ absurd (cc (rw (scan_map, test h, found) at e))
    ]

    rest : g * bpb < s.sb.size → scan_map r (g * bpb + bpb) s ≡ none
    rest h = rw (scan_map, test h, scanned h) at e
