-- ===== src/ProcTable/Number.antt =====
-- Process numbers: handed out in order, never shared by two processes in use.
use os_ass.Common.{
  ℕ, zero, suc, ◌+◌, ◌≤◌, ◌<◌, ◌≡◌, refl, sym, ap, ◌∙◌, inl, inr, false, some, List, [], ◌∷◌, map,
  arith, get_elem?, modify, modify_inv,
}
use mathlib.Core.Path.{subst}
use os_ass.Proc.{Proc, unused, is_state}

abbrev pub InUse : Proc → Type 0
InUse p = is_state p.state unused ≡ false

pub record IsNumbered (nextpid : ℕ) (ps : List Proc) : Type 0 where
  pub below_next : (i : ℕ) (p : Proc) → get_elem? ps i ≡ some p → p.pid < nextpid
  pub distinct :
      (i j : ℕ) (p q : Proc)
      → get_elem? ps i ≡ some p
      → get_elem? ps j ≡ some q
      → InUse p
      → InUse q
      → p.pid ≡ q.pid
      → i ≡ j

-- `q` has taken the place of `p`, without a new number.
abbrev pub Inherits : Proc → Proc → Type 0
Inherits q p = (q.pid ≤ p.pid) × (InUse q → InUse p × (q.pid ≡ p.pid))

abbrev pub AllInherit : List Proc → List Proc → Type 0
AllInherit ps' ps =
    (j : ℕ) (q : Proc)
    → get_elem? ps' j ≡ some q
    → (p : Proc) × (get_elem? ps j ≡ some p)
      × (q.pid ≤ p.pid)
      × (InUse q → InUse p × (q.pid ≡ p.pid))

-- A change that hands out no number keeps the numbering.
pub Inherits-IsNumbered :
    (n : ℕ) (ps ps' : List Proc) → IsNumbered n ps → AllInherit ps' ps → IsNumbered n ps'
Inherits-IsNumbered n ps ps' num from = record {
  below_next = λ i q at. let (p, was, le, _) = from i q at in omega (arith, num.below_next i p was);
  distinct = λ i j q r at at' u u' e.
      let (p, was, _, used) = from i q at in
      let (p', was', _, used') = from j r at' in
      num.distinct i j p p' was was' (used u).0 (used' u').0 (sym (used u).1 ∙ e ∙ (used' u').1);
}

pub modify-AllInherit :
    (ps : List Proc) (i : ℕ) (f : Proc → Proc)
    → ((p : Proc) → Inherits (f p) p)
    → AllInherit (modify ps i f) ps
modify-AllInherit ps i f keep j q at = elim (modify_inv ps i j f q at) [
  | inl (_, (p, was, is)) ↦ (p, was, rw is (keep p).0, rw is (keep p).1)
  | inr (_, was) ↦ (q, was, omega arith, λ u. (u, refl))
]

pub map-AllInherit :
    (ps : List Proc) (f : Proc → Proc) → ((p : Proc) → Inherits (f p) p) → AllInherit (map f ps) ps
map-AllInherit [] f keep j q at = absurd (ground arith)
map-AllInherit (x ∷ ps) f keep zero q at = (
  x,
  refl,
  ground (arith, keep x),
  subst (λ r. InUse r → InUse x × (r.pid ≡ x.pid)) (is q at) (keep x).1,
)
  where
    is : (q : Proc) → some (f x) ≡ some q → f x ≡ q
    is q at = cc
map-AllInherit (x ∷ ps) f keep (suc j) q at = map-AllInherit ps f keep j q at

pub AllInherit-trans :
    (ps ps' ps'' : List Proc) → AllInherit ps'' ps' → AllInherit ps' ps → AllInherit ps'' ps
AllInherit-trans ps ps' ps'' h g j r at =
    let (q, at', le, used) = h j r at in
    let (p, at'', le', used') = g j q at' in
    (p, at'', omega arith, λ u. ((used' (used u).0).0, (used u).1 ∙ (used' (used u).0).1))

-- A slot that is not in use may be given the next number.
pub fresh-IsNumbered :
    (n : ℕ) (ps : List Proc) (i : ℕ) (f : Proc → Proc)
    → IsNumbered n ps
    → ((p : Proc) → (f p).pid ≡ n)
    → IsNumbered (n + 1) (modify ps i f)
fresh-IsNumbered n ps i f num new = record {
  below_next = λ j q at. elim (modify_inv ps i j f q at) [
    | inl (_, (p, _, is)) ↦ omega (arith, ap (λ (r : Proc). r.pid) is, new p)
    | inr (_, was) ↦ omega (arith, num.below_next j q was)
  ];
  distinct = λ j k q r at at' u u' e. elim (modify_inv ps i j f q at) [
    | inl (here, (p, _, is)) ↦ elim (modify_inv ps i k f r at') [
      | inl (here', _) ↦ sym here ∙ here'
      | inr (_, was') ↦
          absurd (omega (arith, ap (λ (x : Proc). x.pid) is, new p, num.below_next k r was'))
    ]
    | inr (_, was) ↦ elim (modify_inv ps i k f r at') [
      | inl (_, (p', _, is')) ↦
          absurd (omega (arith, ap (λ (x : Proc). x.pid) is', new p', num.below_next j q was))
      | inr (_, was') ↦ num.distinct j k q r was was' u u' e
    ]
  ];
}
