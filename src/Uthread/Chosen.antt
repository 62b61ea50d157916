-- ===== src/Uthread/Chosen.antt =====
-- The thread that the search of `uthread_schedule` chooses.
use mathlib.Core.Path.{subst, ap₂}
use os_ass.Common.{modify_inv}
use os_ass.Common.{
  ℕ, zero, suc, ◌^◌, ◌≤◌, ◌<◌, ◌≡◌, refl, sym, ap, ◌∙◌, ◌⊎◌, inl, inr, true, false, ◌&&◌, some,
  List, arith, ◌==◌, Bool-cases, length, get_elem?, modify, length-modify, get_elem?-modify,
  some_inj,
}
use os_ass.Uthread.{
  ThreadState, t_sleeping, t_runnable, is_t, Thread, step_index, is_due, drop_stack,
}

-- The index that the search comes to after `d` steps.
abbrev pub walk : (size d i : ℕ) → ℕ
walk n zero i = i
walk n (suc d) i = walk n d (step_index n i)

abbrev pub IsRunnable : Thread → Type 0
IsRunnable u = is_t u.state t_runnable ≡ true

-- The thread sleeps until a time that has come, where `now` is what `uptime` says; both are read as
-- signed words, and 0 is no time.
abbrev pub WakesAt : (now : ℕ) → Thread → Type 0
WakesAt now u =
    (is_t u.state t_sleeping ≡ true) × (0 < u.wakeup) × (u.wakeup ≤ now) × (now < 2 ^ 31)

abbrev pub CanRun : (now : ℕ) → Thread → Type 0
CanRun now u = IsRunnable u ⊎ WakesAt now u

-- The thread at `k` is the first that can run, from `i` on and around the table: it is runnable, or
-- it sleeps and its time has come when the search is there; those passed over are neither.
pub record Chosen (uptime : ℕ → ℕ) (ts : List Thread) (i k : ℕ) (ts' : List Thread) : Type 0 where
  pub steps : ℕ
  pub at : walk (length ts) steps i ≡ k
  pub thread : Thread
  pub before : get_elem? ts k ≡ some thread
  pub after : Thread
  pub there : get_elem? ts' k ≡ some after
  pub frame : after.tf ≡ thread.tf
  pub runnable : IsRunnable after
  pub able : CanRun (uptime steps) thread
  pub passed :
      (e : ℕ) (u : Thread)
      → e < steps
      → get_elem? ts (walk (length ts) e i) ≡ some u
      → CanRun (uptime e) u
      → ⊥

can_run :
    (now : ℕ) (u v : Thread) → u.state ≡ v.state → u.wakeup ≡ v.wakeup → CanRun now u → CanRun now v
can_run now u v same wakeup c =
    subst
      (λ (p : ThreadState × ℕ).
        (is_t p.0 t_runnable ≡ true)
        ⊎ ((is_t p.0 t_sleeping ≡ true) × (0 < p.1) × (p.1 ≤ now) × (now < 2 ^ 31)))
      (ap₂ (λ (s : ThreadState) (t : ℕ). (s, t)) same wakeup) c

-- Freeing a stack changes neither states nor frames.
pub Chosen-drop :
    (uptime : ℕ → ℕ) (ts : List Thread) (j i k : ℕ) (ts' : List Thread)
    → Chosen uptime (modify ts j drop_stack) i k ts'
    → Chosen uptime ts i k ts'
Chosen-drop uptime ts j i k ts' c = elim (modify_inv ts j k drop_stack c.thread c.before) [
  | inl (_, (u, at, is)) ↦
      fill u at (ap (λ (t : Thread). t.state) is) (ap (λ (t : Thread). t.tf) is)
        (ap (λ (t : Thread). t.wakeup) is)
  | inr (_, at) ↦ fill c.thread at refl refl refl
]
  where
    same_length : length (modify ts j drop_stack) ≡ length ts
    same_length = length-modify ts j drop_stack

    state_after :
        (a : ℕ) (u : Thread)
        → get_elem? ts a ≡ some u
        → (v : Thread) × (get_elem? (modify ts j drop_stack) a ≡ some v)
          × (v.state ≡ u.state)
          × (v.wakeup ≡ u.wakeup)
    state_after a u at = elim (Bool-cases (j == a)) [
      | inl e ↦ (drop_stack u, get_elem?-modify ts j a drop_stack ∙ rw (e, at) refl, refl, refl)
      | inr e ↦ (u, get_elem?-modify ts j a drop_stack ∙ rw e at, refl, refl)
    ]

    fill :
        (u : Thread)
        → get_elem? ts k ≡ some u
        → c.thread.state ≡ u.state
        → c.thread.tf ≡ u.tf
        → c.thread.wakeup ≡ u.wakeup
        → Chosen uptime ts i k ts'
    fill u at same tf wakeup = record {
      steps = c.steps;
      at = rw (sym same_length) c.at;
      thread = u;
      before = at;
      after = c.after;
      there = c.there;
      frame = c.frame ∙ tf;
      runnable = c.runnable;
      able = can_run (uptime c.steps) c.thread u same wakeup c.able;
      passed = λ e v lt here can.
          let (w, at', same', wakeup') = state_after (walk (length ts) e i) v here in
          c.passed e w lt (rw same_length at')
            (can_run (uptime e) v w (sym same') (sym wakeup') can);
    }

-- One step passes over a thread that is not runnable.
pub Chosen-step :
    (uptime : ℕ → ℕ) (ts : List Thread) (i k : ℕ) (u : Thread) (ts' : List Thread)
    → get_elem? ts i ≡ some u
    → (CanRun (uptime 0) u → ⊥)
    → Chosen (λ e. uptime (suc e)) ts (step_index (length ts) i) k ts'
    → Chosen uptime ts i k ts'
Chosen-step uptime ts i k u ts' here no_turn c = record {
  steps = suc c.steps;
  at = c.at;
  thread = c.thread;
  before = c.before;
  after = c.after;
  there = c.there;
  frame = c.frame;
  runnable = c.runnable;
  able = c.able;
  passed = over;
}
  where
    over :
        (e : ℕ) (v : Thread)
        → e < suc c.steps
        → get_elem? ts (walk (length ts) e i) ≡ some v
        → CanRun (uptime e) v
        → ⊥
    over zero v lt at =
        subst (λ (w : Thread). CanRun (uptime 0) w → ⊥) (some_inj (sym here ∙ at)) no_turn
    over (suc e) v lt at = c.passed e v (omega arith) at

pub due_wakes :
    (now : ℕ) (u : Thread) → (is_t u.state t_sleeping && is_due now u.wakeup) ≡ true → WakesAt now u
due_wakes now u h = (ground arith, ground arith, ground arith, ground arith)

pub no_run :
    (now : ℕ) (u : Thread)
    → is_t u.state t_runnable ≡ false
    → (is_t u.state t_sleeping && is_due now u.wakeup) ≡ false
    → CanRun now u
    → ⊥
no_run now u no_turn asleep (inl run) = ground (arith, run)
no_run now u no_turn asleep (inr (s, t, le, now_small)) = ground (arith, s)
