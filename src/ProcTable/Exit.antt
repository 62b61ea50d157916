-- ===== src/ProcTable/Exit.antt =====
-- `exit`: what becomes of the process, of its children and of its parent.
use os_ass.Common.{
  ℕ, ◌<◌, ◌≡◌, refl, sym, ap, ◌∙◌, ◌≢◌, ◌⊎◌, inl, inr, false, Option, none, some, List, arith, ◌==◌,
  Bool-cases, Option-cases, ==_iff, length, get_elem?, get_elem?-lt-length, modify,
  get_elem?-modify_self, get_elem?-modify_ne, modify_inv,
}
use mathlib.Core.Path.{subst}
use os_ass.Proc.{Proc, sleeping, runnable, zombie, proc_at}
use os_ass.ProcTable.{wakeup1, chan_of, is_child_of, abandon, make_zombie, exit_table}
use os_ass.ProcTable.Wakeup.{SleepsOn, wakeup1_lem}
use os_ass.ProcTable.Abandon.{
  Kept, AllKept, AllKept-trans, abandon-AllKept, abandon-none, abandon-stranger, wakeup1-AllKept,
  wakeup1-none,
}

module _ (me init : ℕ) (parent : Option ℕ) (ps : List Proc) (differ : init ≢ me) where
  before : List Proc
  before = wakeup1 (chan_of parent) ps

  before-AllKept : AllKept me init ps before
  unfolding before
  before-AllKept = wakeup1-AllKept me init (chan_of parent) ps

  -- After `exit` of a process that is not init, no process of the table has the one that ended for
  -- its parent.
  pub exit_table-no_children :
      (j : ℕ) (q : Proc)
      → get_elem? (exit_table me init parent ps) j ≡ some q
      → is_child_of me q ≡ false
  unfolding exit_table before
  exit_table-no_children j q at = elim (modify_inv left me j make_zombie q at) [
    | inl (_, (x, was, is)) ↦ subst (λ r. is_child_of me r ≡ false) (sym is) (stranger x was)
    | inr (_, was) ↦ stranger q was
  ]
    where
      left : List Proc
      left = abandon me init (length ps) 0 before

      none_ne : {x : Proc} → none ≡ some x → ⊥
      none_ne h = cc

      in_table : (x : Proc) → get_elem? left j ≡ some x → j < length ps
      in_table x was = elim (Option-cases (get_elem? ps j)) [
        | inl gone ↦ absurd (
            none_ne (
              sym (
                abandon-none me init (length ps) 0 before j
                  (wakeup1-none me init (chan_of parent) ps j gone))
              ∙ was))
        | inr (o, here) ↦ get_elem?-lt-length ps j o here
      ]

      stranger : (x : Proc) → get_elem? left j ≡ some x → is_child_of me x ≡ false
      stranger x was =
          abandon-stranger me init (length ps) 0 before differ (λ i y lt. absurd (omega arith)) j x
            (omega (arith, in_table x was)) was

  -- When a process that is not init ends, every process keeps its pid; its parent is as before, or
  -- is init in place of the one that ended; and its state is as before, or it slept and is
  -- runnable, except that the one that ended is a ZOMBIE.
  pub exit_table-Kept :
      (j : ℕ) (p : Proc)
      → get_elem? ps j ≡ some p
      → (q : Proc) × (get_elem? (exit_table me init parent ps) j ≡ some q)
        × (q.pid ≡ p.pid)
        × ((q.parent ≡ p.parent) ⊎ ((q.parent ≡ some init) × (p.parent ≡ some me)))
        × (((j ≡ me) × (q.state ≡ zombie))
            ⊎ ((j ≢ me) × (q.state ≡ p.state))
            ⊎ ((j ≢ me) × (q.state ≡ runnable) × (p.state ≡ sleeping)))
  unfolding exit_table before
  exit_table-Kept j p at =
      let (q, at', k) =
        AllKept-trans me init ps before left before-AllKept
          (abandon-AllKept me init (length ps) 0 before) j p at in
      elim (Bool-cases (me == j)) [
        | inl same ↦
            let e : me ≡ j = (==_iff me j).0 same in
            (
              make_zombie q,
              subst (λ i. get_elem? (modify left me make_zombie) i ≡ some (make_zombie q)) e
                  (get_elem?-modify_self left me make_zombie q
                    (subst (λ i. get_elem? left i ≡ some q) (sym e) at')),
              k.pid,
              k.parent,
              inl (sym e, refl),
            )
        | inr other ↦ (
          q,
          get_elem?-modify_ne left me j make_zombie (ground arith) ∙ at',
          k.pid,
          k.parent,
          ground (arith, k.state),
        )
      ]
    where
      left : List Proc
      left = abandon me init (length ps) 0 before

  -- A parent that sleeps on itself is runnable afterwards.
  pub exit_table-woken :
      (pa : ℕ) (w : Proc)
      → get_elem? ps pa ≡ some w
      → SleepsOn (proc_at pa) w
      → parent ≡ some pa
      → pa ≢ me
      → (w' : Proc) × (get_elem? (exit_table me init parent ps) pa ≡ some w')
        × (w'.state ≡ runnable)
  unfolding exit_table before
  exit_table-woken pa w there s e apart =
      let q : Proc = record w { state = runnable } in
      let (r, at', k) = abandon-AllKept me init (length ps) 0 before pa q called in
      (
        r,
        get_elem?-modify_ne (abandon me init (length ps) 0 before) me pa make_zombie
              (λ i. apart (sym i))
            ∙ at',
        runs q r refl k,
      )
    where
      called : get_elem? before pa ≡ some (record w { state = runnable })
      called = elim (wakeup1_lem (chan_of parent) ps pa w there) [
        | inl (_, at) ↦ at
        | inr (awake, _) ↦ absurd (awake (s.0, s.1 ∙ sym (ap chan_of e)))
      ]

      runs : (q r : Proc) → q.state ≡ runnable → Kept me init q r → r.state ≡ runnable
      runs q r h k = ground (arith, k.state)
