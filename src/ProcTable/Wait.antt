-- ===== src/ProcTable/Wait.antt =====
-- `wait`: what one pass over the table finds, and what the caller does next.
use os_ass.Common.{
  ℕ, zero, suc, ◌+◌, ◌≡◌, refl, ap, ◌∙◌, ◌⊎◌, inl, inr, Bool, true, false, not, ◌&&◌, ◌||◌, none,
  some, List, [], ◌∷◌, arith, Bool-cases, Option-cases, get_elem?, modify, Outcome, done, panic,
  done_inj, ◌>>=◌,
}
use os_ass.Kalloc.{Kmem, kfree}
use os_ass.Proc.{Proc, zombie, is_state, proc_at}
use os_ass.ProcTable.{
  Kernel, is_child_of, wait_scan, Waited, reaped, failed, asleep, reap, reap_at, wait_step,
  ptable_lock, sleep,
}
use mathlib.Core.Path.{subst}

-- The first zombie child and the presence of children, as the scan of `wait` reports them.
wait_scan-some :
    (me i : ℕ) (h : Bool) (ps : List Proc) (k : ℕ)
    → (wait_scan me i h ps).0 ≡ some k
    → (n : ℕ) × (p : Proc) × (k ≡ i + n)
      × (get_elem? ps n ≡ some p)
      × (is_child_of me p ≡ true)
      × (is_state p.state zombie ≡ true)
unfolding wait_scan
wait_scan-some me i h [] k e = absurd (ground arith)
wait_scan-some me i h (p ∷ ps) k e =
    elim (Bool-cases (is_child_of me p && is_state p.state zombie)) [
      | inl hit ↦ (0, p, ground arith, refl, ground arith, ground arith)
      | inr miss ↦
          let (n, q, at, here, child, dead) =
            wait_scan-some me (suc i) (is_child_of me p || h) ps k (ground arith) in
          (suc n, q, omega arith, here, child, dead)
    ]

wait_scan-none :
    (me i : ℕ) (h : Bool) (ps : List Proc)
    → (wait_scan me i h ps).0 ≡ none
    → (n : ℕ) (p : Proc) → get_elem? ps n ≡ some p
    → (is_child_of me p && is_state p.state zombie) ≡ false
unfolding wait_scan
wait_scan-none me i h [] e n p at = absurd (ground arith)
wait_scan-none me i h (x ∷ ps) e zero p at = ground arith
wait_scan-none me i h (x ∷ ps) e (suc n) p at =
    wait_scan-none me (suc i) (is_child_of me x || h) ps (ground arith) n p at

wait_scan-kids :
    (me i : ℕ) (h : Bool) (ps : List Proc)
    → (wait_scan me i h ps).1 ≡ false
    → (h ≡ false) × ((n : ℕ) (p : Proc) → get_elem? ps n ≡ some p → is_child_of me p ≡ false)
unfolding wait_scan
wait_scan-kids me i h [] e = (e, λ n p at. absurd (ground arith))
wait_scan-kids me i h (x ∷ ps) e = elim (Bool-cases (is_child_of me x && is_state x.state zombie)) [
  | inl hit ↦ absurd (ground arith)
  | inr miss ↦
      let (none_yet, none_left) =
        wait_scan-kids me (suc i) (is_child_of me x || h) ps (ground arith) in
      (ground arith, all none_yet none_left)
]
  where
    all :
        (is_child_of me x || h) ≡ false
        → ((n : ℕ) (p : Proc) → get_elem? ps n ≡ some p → is_child_of me p ≡ false)
        → (n : ℕ) (p : Proc) → get_elem? (x ∷ ps) n ≡ some p
        → is_child_of me p ≡ false
    all nk left zero p at = ground arith
    all nk left (suc n) p at = left n p at

abbrev pub IsZombieChild : (me : ℕ) → Proc → Type 0
IsZombieChild me p = (is_child_of me p ≡ true) × (is_state p.state zombie ≡ true)

zombie_at :
    (me : ℕ) (ps : List Proc) (i : ℕ)
    → (wait_scan me 0 false ps).0 ≡ some i
    → (p : Proc) × (get_elem? ps i ≡ some p) × IsZombieChild me p
zombie_at me ps i found =
    let (n, p, at, here, child, dead) = wait_scan-some me 0 false ps i found in
    (p, rw (at) (ap (get_elem? ps) (omega arith) ∙ here), (child, dead))

abbrev pub HasNoZombie : (me : ℕ) → List Proc → Type 0
HasNoZombie me ps =
    (n : ℕ) (p : Proc)
    → get_elem? ps n ≡ some p
    → (is_child_of me p && is_state p.state zombie) ≡ false

-- A pass that finds no zombie child: there is none.
pub HasNoZombie-wait_scan :
    (me : ℕ) (ps : List Proc) → (wait_scan me 0 false ps).0 ≡ none → HasNoZombie me ps
HasNoZombie-wait_scan me ps e = wait_scan-none me 0 false ps e

-- What `wait` may answer. It returns a pid: a zombie child had it, and its slot has been cleared.
-- It returns -1: no child is a zombie, and there is no child at all or the caller has been killed.
-- It sleeps on itself: no child is a zombie, and the caller has not been killed.
abbrev pub Answers : Kernel → (me : ℕ) → (killed : Bool) → Waited → Type 0
Answers k me killed (reaped pid k') =
    (n : ℕ) × (p : Proc) × (get_elem? k.procs n ≡ some p)
    × IsZombieChild me p
    × (p.pid ≡ pid)
    × (k'.procs ≡ modify k.procs n reap)
Answers k me killed failed =
    HasNoZombie me k.procs
    × (((n : ℕ) (p : Proc) → get_elem? k.procs n ≡ some p → is_child_of me p ≡ false)
        ⊎ (killed ≡ true))
Answers k me killed (asleep ps) =
    HasNoZombie me k.procs
    × (killed ≡ false)
    × (sleep (some me) (proc_at me) (some ptable_lock) k.procs ≡ done ps)

module _ (end : ℕ) (freevm : Kmem → ℕ → Outcome Kmem) where
  reap_at-Answers :
      (k : Kernel) (me : ℕ) (killed : Bool) (n : ℕ) (p : Proc) (w : Waited)
      → get_elem? k.procs n ≡ some p
      → IsZombieChild me p
      → reap_at end freevm k n p ≡ done w
      → Answers k me killed w
  reap_at-Answers k me killed n p w at z e = go (kfree end k.kmem p.kstack) e
    where
      last :
          (m : Outcome Kmem)
          → (m >>= λ m'.
              done (reaped p.pid (record k { kmem = m'; procs = modify k.procs n reap })))
            ≡ done w
          → Answers k me killed w
      last (panic s) e = absurd (cc)
      last (done m) e = subst (Answers k me killed) (done_inj e) (n, p, at, z, refl, refl)

      go :
          (m : Outcome Kmem)
          → (m >>= λ m. freevm m p.pgdir >>= λ m'.
              done (reaped p.pid (record k { kmem = m'; procs = modify k.procs n reap })))
            ≡ done w
          → Answers k me killed w
      go (panic s) e = absurd (cc)
      go (done m) e = last (freevm m p.pgdir) e

  -- A pass of `wait` that ends without a panic either returns the pid of a zombie child, whose slot
  -- alone it clears; or fails, with no zombie among the children, and then the caller has no
  -- children or is killed; or, with no zombie among the children and the caller not killed, puts
  -- the caller to sleep on itself.
  pub wait_step-Answers :
      (k : Kernel) (me : ℕ) (killed : Bool) (w : Waited)
      → wait_step end freevm k me killed ≡ done w
      → Answers k me killed w
  unfolding wait_step sleep
  wait_step-Answers k me killed w e = elim (Option-cases (wait_scan me 0 false k.procs).0) [
    | inl nz ↦ idle nz (Bool-cases (not (wait_scan me 0 false k.procs).1 || killed))
    | inr (i, found) ↦
        let (p, here, child) = zombie_at me k.procs i found in
        reap_at-Answers k me killed i p w here child (rw (found, wait_step, here) at e)
  ]
    where
      idle :
          (wait_scan me 0 false k.procs).0 ≡ none
          → ((not (wait_scan me 0 false k.procs).1 || killed) ≡ true)
            ⊎ ((not (wait_scan me 0 false k.procs).1 || killed) ≡ false)
          → Answers k me killed w
      idle nz (inl stop) = subst (Answers k me killed) (done_inj (rw (nz, wait_step, stop) at e)) (
        HasNoZombie-wait_scan me k.procs nz,
        elim (Bool-cases killed) [
          | inl y ↦ inr y
          | inr n ↦ inl (wait_scan-kids me 0 false k.procs (ground arith)).1
        ],
      )
      idle nz (inr go) =
          subst (Answers k me killed) (done_inj (rw (nz, wait_step, go) at e))
            (HasNoZombie-wait_scan me k.procs nz, ground arith, refl)
