-- ===== src/Uthread/Turn.antt =====
-- Which thread `uthread_schedule` gives the turn.
use os_ass.Common.{get_elem?-modify_self}
use os_ass.Common.{
  ℕ, zero, suc, ◌+◌, ◌-◌, ◌≤◌, ◌<◌, ◌≡◌, refl, ap, ◌∙◌, inl, inr, true, false, ◌&&◌, some, List, [],
  ◌∷◌, arith, leb, ◌==◌, Bool-cases, length, get_elem?, get_elem?-lt-length, modify, length-modify,
  get_elem?-modify,
}
use os_ass.Uthread.{
  t_sleeping, t_runnable, is_t, Thread, step_index, is_due, is_left, drop_stack, wake_due, search,
}
use os_ass.Uthread.Chosen.{Chosen, Chosen-drop, Chosen-step, IsRunnable, due_wakes, no_run, walk}

-- The search ends at a thread that can run.
abbrev pub Found :
    (rounds : ℕ) (uptime : ℕ → ℕ) (tid i : ℕ) (ts : List Thread) (freed : List ℕ) → Type 0
Found rounds uptime tid i ts freed =
    (k : ℕ) × (ts' : List Thread) × (freed' : List ℕ) × (search rounds uptime tid i ts freed
      ≡ some (k, ts', freed'))
    × Chosen uptime ts i k ts'

module _ (r : ℕ) (uptime : ℕ → ℕ) (tid i : ℕ) (ts : List Thread) (freed : List ℕ) (u : Thread)
    (here : get_elem? ts i ≡ some u) where
  stop_here : IsRunnable u → Found (suc r) uptime tid i ts freed
  unfolding search
  stop_here run = (
    i,
    ts,
    freed,
    rw (search, here, run) refl,
    record {
      steps = 0;
      at = refl;
      thread = u;
      before = here;
      after = u;
      there = here;
      frame = refl;
      runnable = run;
      able = inl run;
      passed = λ e v lt at can. absurd (omega arith);
    },
  )

  wake_here :
      is_t u.state t_runnable ≡ false
      → (is_t u.state t_sleeping && is_due (uptime 0) u.wakeup) ≡ true
      → Found (suc r) uptime tid i ts freed
  unfolding search is_t
  wake_here no_turn due = (
    i,
    modify ts i wake_due,
    freed,
    rw (search, here, no_turn, due) refl,
    record {
      steps = 0;
      at = refl;
      thread = u;
      before = here;
      after = wake_due u;
      there = get_elem?-modify_self ts i wake_due u here;
      frame = refl;
      runnable = refl;
      able = inr (due_wakes (uptime 0) u due);
      passed = λ e v lt at can. absurd (omega arith);
    },
  )

  pass_here :
      is_t u.state t_runnable ≡ false
      → (is_t u.state t_sleeping && is_due (uptime 0) u.wakeup) ≡ false
      → Found r (λ k. uptime (suc k)) tid (step_index (length ts) i) ts freed
      → Found r
          (λ k. uptime (suc k))
          tid
          (step_index (length ts) i)
          (modify ts i drop_stack)
          (u.t_stack ∷ freed)
      → Found (suc r) uptime tid i ts freed
  unfolding search
  pass_here no_turn asleep (k, ts', freed', e, c) (l, us', gone', f, d) =
      elim (Bool-cases (is_left tid u)) [
        | inl left ↦ (
          l,
          us',
          gone',
          rw (search, here, no_turn, asleep, left) f,
          Chosen-step uptime ts i l u us' here (no_run (uptime 0) u no_turn asleep)
              (Chosen-drop (λ e. uptime (suc e)) ts i (step_index (length ts) i) l us' d),
        )
        | inr other ↦ (
          k,
          ts',
          freed',
          rw (search, here, no_turn, asleep, other) e,
          Chosen-step uptime ts i k u ts' here (no_run (uptime 0) u no_turn asleep) c,
        )
      ]

-- The way to the runnable thread, with a stack freed at its start.
drop-path :
    (ts : List Thread) (j a : ℕ)
    → ((u : Thread) × (get_elem? ts a ≡ some u))
    → (u : Thread) × (get_elem? (modify ts j drop_stack) a ≡ some u)
drop-path ts j a (u, at) = elim (Bool-cases (j == a)) [
  | inl e ↦ (drop_stack u, get_elem?-modify ts j a drop_stack ∙ rw (e, at) refl)
  | inr e ↦ (u, get_elem?-modify ts j a drop_stack ∙ rw e at)
]

drop-IsRunnable :
    (ts : List Thread) (j a : ℕ) (v : Thread)
    → get_elem? ts a ≡ some v
    → IsRunnable v
    → (w : Thread) × (get_elem? (modify ts j drop_stack) a ≡ some w) × IsRunnable w
drop-IsRunnable ts j a v at run = elim (Bool-cases (j == a)) [
  | inl e ↦ (drop_stack v, get_elem?-modify ts j a drop_stack ∙ rw (e, at) refl, run)
  | inr e ↦ (v, get_elem?-modify ts j a drop_stack ∙ rw e at, run)
]

-- A runnable thread `d` steps ahead is reason enough for the search to end within `d + 1` rounds.
pub search-Found :
    (d r : ℕ) (uptime : ℕ → ℕ) (tid i : ℕ) (ts : List Thread) (freed : List ℕ) (v : Thread)
    → d < r
    → ((e : ℕ) → e < d → (u : Thread) × (get_elem? ts (walk (length ts) e i) ≡ some u))
    → get_elem? ts (walk (length ts) d i) ≡ some v
    → IsRunnable v
    → Found r uptime tid i ts freed
search-Found d zero uptime tid i ts freed v lt path at run = absurd (omega arith)
search-Found zero (suc r) uptime tid i ts freed v lt path at run =
    stop_here r uptime tid i ts freed v at run
search-Found (suc d) (suc r) uptime tid i ts freed v lt path at run =
    elim (Bool-cases (is_t u.state t_runnable)) [
      | inl turn ↦ stop_here r uptime tid i ts freed u here turn
      | inr no_turn ↦ elim (Bool-cases (is_t u.state t_sleeping && is_due (uptime 0) u.wakeup)) [
        | inl due ↦ wake_here r uptime tid i ts freed u here no_turn due
        | inr asleep ↦
            pass_here r uptime tid i ts freed u here no_turn asleep
              (search-Found d r (λ k. uptime (suc k)) tid next ts freed v (omega arith)
                (λ e p. path (suc e) (omega arith)) at run)
              (let (w, at', run') = drop-IsRunnable ts i (walk (length ts) d next) v at run in
                search-Found d r (λ k. uptime (suc k)) tid next (modify ts i drop_stack)
                  (u.t_stack ∷ freed) w (omega arith)
                  (λ e p.
                    rw (length-modify ts i drop_stack)
                      (drop-path ts i (walk (length ts) e next) (path (suc e) (omega arith))))
                  (rw (length-modify ts i drop_stack) at') run')
      ]
    ]
  where
    u : Thread
    u = (path 0 (omega arith)).0

    here : get_elem? ts i ≡ some u
    here = (path 0 (omega arith)).1

    next : ℕ
    next = step_index (length ts) i

walk-up : (n d i : ℕ) → i + d < n → walk n d i ≡ i + d
walk-up n zero i h = omega arith
walk-up n (suc d) i h = rw inside (walk-up n d (suc i) (omega arith) ∙ omega arith)
  where
    inside : leb n (suc i) ≡ false
    inside = ground arith

walk-add : (n a b i : ℕ) → walk n (a + b) i ≡ walk n b (walk n a i)
walk-add n zero b i = let e : 0 + b ≡ b = omega arith in ap (λ k. walk n k i) e
walk-add n (suc a) b i =
    let e : suc a + b ≡ suc (a + b) = omega arith in
    ap (λ k. walk n k i) e ∙ walk-add n a b (step_index n i)

walk-below : (n d i : ℕ) → i < n → walk n d i < n
walk-below n zero i h = h
walk-below n (suc d) i h = walk-below n d (step_index n i) (ground arith)

-- Around the table every index is reached.
pub reached : (n i j : ℕ) → i < n → j < n → (d : ℕ) × (d < n) × (walk n d i ≡ j)
reached n i j hi hj = elim (Bool-cases (leb i j)) [
  | inl up ↦ (j - i, ground arith, walk-up n (j - i) i (ground arith) ∙ ground arith)
  | inr down ↦ (
    (n - 1 - i) + (1 + j),
    ground arith,
    walk-add n (n - 1 - i) (1 + j) i
        ∙ ap (walk n (1 + j)) (walk-up n (n - 1 - i) i (omega arith) ∙ omega arith)
        ∙ walk-add n 1 j (n - 1)
        ∙ ap (walk n j) wraps
        ∙ walk-up n j 0 (omega arith)
        ∙ omega arith,
  )
]
  where
    wraps : walk n 1 (n - 1) ≡ 0
    wraps = ground arith

pub get_elem?-some {ℓ} :
    {A : Type ℓ} (xs : List A) (i : ℕ) → i < length xs → (x : A) × (get_elem? xs i ≡ some x)
get_elem?-some [] i h = absurd (omega arith)
get_elem?-some (x ∷ xs) zero h = (x, refl)
get_elem?-some (x ∷ xs) (suc i) h = get_elem?-some xs i (omega arith)

-- If some thread is runnable, the search ends within one round of the table.
pub search-Chosen :
    (r : ℕ) (uptime : ℕ → ℕ) (tid i j : ℕ) (ts : List Thread) (freed : List ℕ) (v : Thread)
    → length ts ≤ r
    → i < length ts
    → get_elem? ts j ≡ some v
    → IsRunnable v
    → Found r uptime tid i ts freed
search-Chosen r uptime tid i j ts freed v enough hi at run =
    let (d, lt, e) = reached (length ts) i j hi (get_elem?-lt-length ts j v at) in
    search-Found d r uptime tid i ts freed v (omega arith)
      (λ k p. get_elem?-some ts (walk (length ts) k i) (walk-below (length ts) k i hi)) (rw e at)
      run
