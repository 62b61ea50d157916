-- ===== src/Log/Reserved.antt =====
-- `begin_op` and `log_write` keep the space in the log that is reserved for operations under way.
use mathlib.Core.Path.{subst}
use os_ass.Log.{Log, log_size, max_op_blocks, find_entry, begin_op, log_write}
use os_ass.Log.Write.{FoundEntry, find_entry-FoundEntry}
use os_ass.Log.Unwritten.{
  is_in, add_block, unwritten, unwritten-bound, unwritten-middle, length-middle, HasEntry, HoldsAll,
  HoldsAll-map, HoldsAll-take, HoldsAll-put, Holds-add_block,
}
use os_ass.Common.{
  ℕ, ◌+◌, ◌-◌, ◌*◌, ◌≤◌, ◌<◌, ◌≡◌, refl, sym, ap, ◌∙◌, inl, inr, Bool, true, false, ◌||◌, some,
  List, [], ◌∷◌, ◌++◌, arith, ltb, leb, ◌==◌, Bool-cases, ==_iff, ==_refl, length, get_or, set,
  length-set, get_or-set, done, done_inj, some_inj, if◌then◌else◌,
}

-- The blocks in the log and those still to come fit: one entry is left, and the header's block.
pub record IsReserved (l : Log) (ws : List (List ℕ)) : Type 0 where
  pub fits : l.n + unwritten ws + 2 ≤ log_size
  pub count : l.outstanding ≡ length ws
  pub idle : length ws ≡ 0 → l.n ≡ 0
  pub room : log_size ≤ l.size
  pub few : length ws ≤ 3
  pub entries : length l.block ≡ log_size
  pub holds : HoldsAll l ws

pub begin_op-IsReserved :
    (l l' : Log) (ws : List (List ℕ))
    → IsReserved l ws
    → begin_op l ≡ some l'
    → IsReserved l' ([] ∷ ws)
unfolding begin_op
begin_op-IsReserved l l' ws r e = elim (Bool-cases l.committing) [
  | inl busy ↦ absurd (ground (arith, rw (begin_op, busy) at e))
  | inr quiet ↦ elim (Bool-cases (ltb 30 (l.n + (l.outstanding + 1) * 10))) [
    | inl full ↦ absurd (ground (arith, rw (begin_op, quiet, full) at e))
    | inr fits ↦
        let is = some_inj (rw (begin_op, quiet, fits) at e) in
        let small : l.n + (l.outstanding + 1) * 10 ≤ 30 = ground arith in
        subst (λ q. IsReserved q ([] ∷ ws)) is
          (record {
            fits = elim (Bool-cases (length ws == 0)) [
              | inl e ↦ omega (
                arith,
                unwritten-bound ws,
                r.idle ((==_iff (length ws) 0).0 e),
                (==_iff (length ws) 0).0 e,
              )
              | inr e ↦ ground (arith, unwritten-bound ws, r.count, small)
            ];
            count = omega (arith, r.count);
            idle = λ e. absurd (omega arith);
            room = r.room;
            few = omega (arith, r.count, small);
            entries = r.entries;
            holds = (λ b i. absurd (ground arith), r.holds);
          })
  ]
]

-- An operation finds room for a write, also of a block that it has written before.
pub log_write-admits :
    (l : Log) (xs : List (List ℕ)) (w : List ℕ) (ys : List (List ℕ))
    → IsReserved l (xs ++ w ∷ ys)
    → ((leb log_size l.n || leb (l.size - 1) l.n) ≡ false) × ((ltb l.outstanding 1) ≡ false)
log_write-admits l xs w ys r =
    let below : l.n < 29 = omega (arith, r.fits) in
    let room = r.room in
    let ops : 0 < l.outstanding = omega (arith, r.count, length-middle xs w ys) in
    (ground arith, ground arith)

module _ (l : Log) (b : ℕ) (xs : List (List ℕ)) (w : List ℕ) (ys : List (List ℕ))
    (r : IsReserved l (xs ++ w ∷ ys)) where
  spot : ℕ
  spot = find_entry l.n 0 b l.block

  abbrev logged : Log
  logged = record l { block = set l.block spot b; n = if spot == l.n then l.n + 1 else l.n }

  found : FoundEntry l.n 0 b l.block spot
  unfolding spot
  found = find_entry-FoundEntry l.n 0 b l.block

  logged-HasEntry : HasEntry logged b
  logged-HasEntry = (
    spot,
    elim (Bool-cases (spot == l.n)) [
      | inl e ↦ rw e (ground arith)
      | inr e ↦ rw e (ground (arith, found.upto))
    ],
    get_or-set l.block spot spot b 0 (omega (arith, found.upto, r.fits, r.entries))
        ∙ rw (==_refl spot) refl,
  )

  logged_keeps : (c : ℕ) → HasEntry l c → HasEntry logged c
  logged_keeps c (k, lt, at) = elim (Bool-cases (spot == k)) [
    | inl e ↦
        let same : spot ≡ k = (==_iff spot k).0 e in
        let hit : get_or l.block spot 0 ≡ b = elim found.hit [
          | inl last ↦ absurd (omega arith)
          | inr h ↦ h
        ] in
        subst (HasEntry logged) (sym hit ∙ ap (λ i. get_or l.block i 0) same ∙ at) logged-HasEntry
    | inr e ↦ (
      k,
      elim (Bool-cases (spot == l.n)) [ inl f ↦ rw f (omega arith) | inr f ↦ rw f lt ],
      get_or-set l.block spot k b 0 (omega (arith, found.upto, r.fits, r.entries)) ∙ rw e at,
    )
  ]

  -- An entry is made only for a block that the operation has not written.
  is_new : (spot == l.n) ≡ true → is_in b w ≡ false
  is_new e = elim (Bool-cases (is_in b w)) [
    | inl there ↦
        let (k, lt, at) = (HoldsAll-take l xs w ys r.holds).0 b there in
        let missed = found.missed k (omega arith) (ground arith) in
        absurd (ground (arith, rw (at, ==_refl b) at missed))
    | inr other ↦ other
  ]

  logged-fits :
      length (add_block b w) < max_op_blocks
      → logged.n + unwritten (xs ++ add_block b w ∷ ys) + 2 ≤ log_size
  logged-fits lt = elim (Bool-cases (spot == l.n)) [
    | inl e ↦
        rw (e, is_new e)
          (omega (
            arith,
            (rw (is_new e) at lt),
            r.fits,
            unwritten-middle xs w ys,
            unwritten-middle xs (b ∷ w) ys,
          ))
    | inr e ↦ elim (Bool-cases (is_in b w)) [
      | inl old ↦ rw (e, old) r.fits
      | inr new ↦
          rw (e, new)
            (omega (arith, r.fits, unwritten-middle xs w ys, unwritten-middle xs (b ∷ w) ys))
    ]
  ]

  pub log_write-IsReserved :
      (l' : Log) (dirty dirty' : ℕ → Bool)
      → length (add_block b w) < max_op_blocks
      → log_write l dirty b ≡ done (l', dirty')
      → IsReserved l' (xs ++ add_block b w ∷ ys)
  unfolding log_write spot
  log_write-IsReserved l' dirty dirty' lt e =
      let (fits, ops) = log_write-admits l xs w ys r in
      let is = done_inj (rw (log_write, fits, ops) at e) in
      let (own, others) = HoldsAll-take l xs w ys r.holds in
      let as_long = length-middle xs w ys ∙ sym (length-middle xs (add_block b w) ys) in
      subst (λ q. IsReserved q (xs ++ add_block b w ∷ ys)) (ap (λ (q : Log × (ℕ → Bool)). q.0) is)
        (record {
          fits = logged-fits lt;
          count = r.count ∙ as_long;
          idle = λ e. absurd (omega (arith, length-middle xs (add_block b w) ys));
          room = r.room;
          few = omega (arith, r.few, as_long);
          entries = length-set l.block spot b ∙ r.entries;
          holds =
              HoldsAll-put logged xs (add_block b w) ys
                (Holds-add_block logged b w (λ c i. logged_keeps c (own c i)) logged-HasEntry)
                (HoldsAll-map l logged (xs ++ ys) logged_keeps others);
        })
