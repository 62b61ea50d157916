-- ===== src/ProcTable/Abandon.antt =====
-- `exit`: what the loop that passes abandoned children to init does to the table.
use os_ass.Common.{
  ℕ, zero, suc, ◌+◌, ◌<◌, ◌≡◌, refl, sym, ap, ◌∙◌, ◌≢◌, ◌⊎◌, inl, inr, true, false, ◌&&◌, none,
  some, List, arith, ◌==◌, some_inj, Bool-cases, Option-cases, ==_iff, get_elem?, modify,
  get_elem?-modify_self, get_elem?-modify_ne, get_elem?-modify-none, get_elem?-map,
}
use mathlib.Core.Option
use mathlib.Core.Path.{subst}
use os_ass.Proc.{Proc, sleeping, runnable, zombie, is_state, Chan, proc_at, is_chan}
use os_ass.ProcTable.{wake, wakeup1, is_child_of, pass_on, abandon}
use os_ass.ProcTable.Wakeup.{asleep_inv}

-- What the end of the process `me` may do to another one: give it to init, and wake it.
pub record Kept (me init : ℕ) (p q : Proc) : Type 0 where
  pub pid : q.pid ≡ p.pid
  pub parent : (q.parent ≡ p.parent) ⊎ ((q.parent ≡ some init) × (p.parent ≡ some me))
  pub state : (q.state ≡ p.state) ⊎ ((q.state ≡ runnable) × (p.state ≡ sleeping))

Kept-refl : (me init : ℕ) (p : Proc) → Kept me init p p
Kept-refl me init p = record { pid = refl; parent = inl refl; state = inl refl }

Kept-trans : (me init : ℕ) (p q r : Proc) → Kept me init p q → Kept me init q r → Kept me init p r
Kept-trans me init p q r a b = record {
  pid = b.pid ∙ a.pid;
  parent = ground (arith, a.parent, b.parent);
  state = ground (arith, a.state, b.state);
}

-- Every entry of the table comes from the entry at the same index.
abbrev pub AllKept : (me init : ℕ) → List Proc → List Proc → Type 0
AllKept me init ps ps' =
    (j : ℕ) (p : Proc)
    → get_elem? ps j ≡ some p
    → (q : Proc) × (get_elem? ps' j ≡ some q) × Kept me init p q

pub AllKept-trans :
    (me init : ℕ) (ps qs rs : List Proc)
    → AllKept me init ps qs
    → AllKept me init qs rs
    → AllKept me init ps rs
AllKept-trans me init ps qs rs f g j p at =
    let (q, at', k) = f j p at in
    let (r, at'', k') = g j q at' in (r, at'', Kept-trans me init p q r k k')

wake-Kept : (me init : ℕ) (c : Chan) (p : Proc) → Kept me init p (wake c p)
wake-Kept me init c p = elim (Bool-cases (is_state p.state sleeping && is_chan p.chan c)) [
  | inl e ↦
      rw e (record { pid = refl; parent = inl refl; state = inr (refl, (asleep_inv c p e).0) })
  | inr e ↦ rw e (Kept-refl me init p)
]

pub wakeup1-AllKept : (me init : ℕ) (c : Chan) (ps : List Proc) → AllKept me init ps (wakeup1 c ps)
unfolding wakeup1
wakeup1-AllKept me init c ps j p at =
    (wake c p, get_elem?-map ps j (wake c) ∙ ap (Option.map (wake c)) at, wake-Kept me init c p)

modify-AllKept :
    (me init : ℕ) (ps : List Proc) (i : ℕ) (f : Proc → Proc)
    → ((p : Proc) → get_elem? ps i ≡ some p → Kept me init p (f p))
    → AllKept me init ps (modify ps i f)
modify-AllKept me init ps i f keep j p at = elim (Bool-cases (i == j)) [
  | inl same ↦
      let e : i ≡ j = (==_iff i j).0 same in
      (f p, rw (sym e) (get_elem?-modify_self ps i f p (rw e at)), keep p (rw e at))
  | inr other ↦ (p, get_elem?-modify_ne ps i j f (ground arith) ∙ at, Kept-refl me init p)
]

module _ (me init : ℕ) where
  give : Proc → Proc
  give q = record q { parent = some init }

  give-Kept : (p : Proc) → is_child_of me p ≡ true → Kept me init p (give p)
  unfolding give
  give-Kept p child = record { pid = refl; parent = inr (refl, ground arith); state = inl refl }

  pass_on-AllKept : (i : ℕ) (ps : List Proc) → AllKept me init ps (pass_on me init i ps)
  unfolding pass_on give
  pass_on-AllKept i ps = elim (Option-cases (get_elem? ps i)) [
    | inl e ↦ rw (e, pass_on) (λ j p at. (p, at, Kept-refl me init p))
    | inr (p, e) ↦ elim (Bool-cases (is_child_of me p)) [
      | inl child ↦ elim (Bool-cases (is_state p.state zombie)) [
        | inl dead ↦
            rw (e, pass_on, child, dead)
              (AllKept-trans me init ps (modify ps i give)
                (wakeup1 (proc_at init) (modify ps i give)) (given p e child)
                (wakeup1-AllKept me init (proc_at init) (modify ps i give)))
        | inr alive ↦ rw (e, pass_on, child, alive) (given p e child)
      ]
      | inr stranger ↦ rw (e, pass_on, stranger) (λ j p at. (p, at, Kept-refl me init p))
    ]
  ]
    where
      given :
          (p : Proc)
          → get_elem? ps i ≡ some p
          → is_child_of me p ≡ true
          → AllKept me init ps (modify ps i give)
      given p e child =
          modify-AllKept me init ps i give (λ q at.
            give-Kept q (subst (λ r. is_child_of me r ≡ true) (some_inj (sym e ∙ at)) child))

  -- After its round the process at `i` is no child of `me`.
  pass_on-stranger :
      (i : ℕ) (ps : List Proc)
      → init ≢ me
      → (q : Proc) → get_elem? (pass_on me init i ps) i ≡ some q
      → is_child_of me q ≡ false
  unfolding pass_on give wakeup1
  pass_on-stranger i ps ne q at = elim (Option-cases (get_elem? ps i)) [
    | inl e ↦ absurd (none_ne (sym e ∙ (rw (e, pass_on) at at)))
    | inr (p, e) ↦ elim (Bool-cases (is_child_of me p)) [
      | inl child ↦ elim (Bool-cases (is_state p.state zombie)) [
        | inl dead ↦
            subst (λ r. is_child_of me r ≡ false)
              (some_inj (sym (woken p e) ∙ (rw (e, pass_on, child, dead) at at))) (fresh p)
        | inr alive ↦
            subst (λ r. is_child_of me r ≡ false)
              (some_inj
                (sym (get_elem?-modify_self ps i give p e) ∙ (rw (e, pass_on, child, alive) at at)))
              other
      ]
      | inr stranger ↦
          subst (λ r. is_child_of me r ≡ false)
            (some_inj (sym e ∙ (rw (e, pass_on, stranger) at at))) stranger
    ]
  ]
    where
      none_ne : {x : Proc} → none ≡ some x → ⊥
      none_ne h = cc

      other : (init == me) ≡ false
      other = ground arith

      woken :
          (p : Proc)
          → get_elem? ps i ≡ some p
          → get_elem? (wakeup1 (proc_at init) (modify ps i give)) i
            ≡ some (wake (proc_at init) (give p))
      woken p e =
          get_elem?-map (modify ps i give) i (wake (proc_at init))
          ∙ ap (Option.map (wake (proc_at init))) (get_elem?-modify_self ps i give p e)

      fresh : (p : Proc) → is_child_of me (wake (proc_at init) (give p)) ≡ false
      fresh p = elim (Bool-cases (is_state p.state sleeping && is_chan p.chan (proc_at init))) [
        | inl y ↦ rw y other
        | inr n ↦ rw n other
      ]

  -- A stranger stays one.
  Kept-stranger :
      (p q : Proc)
      → init ≢ me
      → Kept me init p q
      → is_child_of me p ≡ false
      → is_child_of me q ≡ false
  Kept-stranger p q ne k h = ground (arith, k.parent)

  pub wakeup1-none :
      (c : Chan) (ps : List Proc) (j : ℕ)
      → get_elem? ps j ≡ none
      → get_elem? (wakeup1 c ps) j ≡ none
  unfolding wakeup1
  wakeup1-none c ps j e = get_elem?-map ps j (wake c) ∙ ap (Option.map (wake c)) e

  -- The table gets no new entries.
  pass_on-none :
      (i : ℕ) (ps : List Proc) (j : ℕ)
      → get_elem? ps j ≡ none
      → get_elem? (pass_on me init i ps) j ≡ none
  unfolding pass_on give
  pass_on-none i ps j e = elim (Option-cases (get_elem? ps i)) [
    | inl e' ↦ rw (e', pass_on) e
    | inr (p, e') ↦ elim (Bool-cases (is_child_of me p)) [
      | inl child ↦ elim (Bool-cases (is_state p.state zombie)) [
        | inl dead ↦
            rw (e', pass_on, child, dead)
              (wakeup1-none (proc_at init) (modify ps i give) j
                (get_elem?-modify-none ps i j give e))
        | inr alive ↦ rw (e', pass_on, child, alive) (get_elem?-modify-none ps i j give e)
      ]
      | inr stranger ↦ rw (e', pass_on, stranger) e
    ]
  ]

  pub abandon-none :
      (r i : ℕ) (ps : List Proc) (j : ℕ)
      → get_elem? ps j ≡ none
      → get_elem? (abandon me init r i ps) j ≡ none
  unfolding abandon
  abandon-none zero i ps j e = e
  abandon-none (suc r) i ps j e =
      abandon-none r (suc i) (pass_on me init i ps) j (pass_on-none i ps j e)

  pub abandon-AllKept : (r i : ℕ) (ps : List Proc) → AllKept me init ps (abandon me init r i ps)
  unfolding abandon
  abandon-AllKept zero i ps = λ j p at. (p, at, Kept-refl me init p)
  abandon-AllKept (suc r) i ps =
      AllKept-trans me init ps (pass_on me init i ps)
        (abandon me init r (suc i) (pass_on me init i ps)) (pass_on-AllKept i ps)
        (abandon-AllKept r (suc i) (pass_on me init i ps))

  -- The loop leaves no child of `me` among the processes that it has passed.
  pub abandon-stranger :
      (r i : ℕ) (ps : List Proc)
      → init ≢ me
      → ((j : ℕ) (p : Proc) → j < i → get_elem? ps j ≡ some p → is_child_of me p ≡ false)
      → (j : ℕ) (q : Proc) → j < i + r
      → get_elem? (abandon me init r i ps) j ≡ some q
      → is_child_of me q ≡ false
  unfolding abandon
  abandon-stranger zero i ps ne passed j q lt at = passed j q (omega arith) at
  abandon-stranger (suc r) i ps ne passed j q lt at =
      abandon-stranger r (suc i) (pass_on me init i ps) ne next j q (omega arith) at
    where
      none_ne : {x : Proc} → none ≡ some x → ⊥
      none_ne h = cc

      from_old :
          (j : ℕ) (o p : Proc)
          → j < i
          → get_elem? ps j ≡ some o
          → get_elem? (pass_on me init i ps) j ≡ some p
          → is_child_of me p ≡ false
      from_old j o p lt was at =
          let (q, is, k) = pass_on-AllKept i ps j o was in
          subst (λ r. is_child_of me r ≡ false) (some_inj (sym is ∙ at))
            (Kept-stranger o q ne k (passed j o lt was))

      next :
          (j : ℕ) (p : Proc)
          → j < suc i
          → get_elem? (pass_on me init i ps) j ≡ some p
          → is_child_of me p ≡ false
      next j p lt at = elim (Bool-cases (i == j)) [
        | inl same ↦ pass_on-stranger i ps ne p (
            subst (λ n. get_elem? (pass_on me init i ps) n ≡ some p) (sym ((==_iff i j).0 same)) at)
        | inr other ↦ elim (Option-cases (get_elem? ps j)) [
          | inl gone ↦ absurd (none_ne (sym (pass_on-none i ps j gone) ∙ at))
          | inr (o, was) ↦ from_old j o p (ground arith) was at
        ]
      ]
