-- ===== src/ProcTable/Zombie.antt =====
-- A child that ends and a parent that waits.
use os_ass.Common.{
  ◌≡◌, refl, sym, ◌∙◌, ◌≢◌, ◌⊎◌, inl, inr, false, ◌&&◌, none, some, List, arith, ◌==◌, some_inj,
  Bool-cases, ==_refl, get_elem?, done, ap, Outcome, ◌>>=◌, ℕ, panic,
}
use os_ass.Proc.{Proc, sleeping, runnable, zombie, is_state, is_chan, proc_at, nofile}
use os_ass.ProcTable.{
  Kernel, is_child_of, exit_table, exit, wait_scan, Closing, close_files, leave_cwd, exit_locked,
}
use os_ass.ProcTable.Wakeup.{SleepsOn, asleep, asleep_inv}
use os_ass.ProcTable.Wait.{HasNoZombie-wait_scan}
use os_ass.ProcTable.Exit.{exit_table-Kept, exit_table-woken}

-- The calls one after the other, whichever is taken first.
bind_assoc :
    {A B C : Type 0} (o : Outcome A) (f : A → Outcome B) (g : B → Outcome C)
    → (o >>= λ a. f a >>= g) ≡ ((o >>= f) >>= g)
bind_assoc (done a) f g = refl
bind_assoc (panic s) f g = refl

module _ {W : Type 0} (c : Closing W) (k : Kernel) (x : W) (me pa : ℕ) (k₁ : Kernel) (x₁ : W)
    (p w : Proc) where
  -- If a process that is not init ends, the calls that close its files and let go of its directory
  -- all return, and init is then still the same and its parent another process of the table, then
  -- `exit` does not panic, a pass of the parent's `wait` over the table finds a zombie child, and a
  -- parent that slept on itself, as `wait` does, is runnable.
  pub exit-wait :
      me ≢ k.initproc
      → (close_files c me nofile 0 (k, x) >>= λ t. leave_cwd c me t) ≡ done (k₁, x₁)
      → k₁.initproc ≡ k.initproc
      → get_elem? k₁.procs me ≡ some p
      → p.parent ≡ some pa
      → get_elem? k₁.procs pa ≡ some w
      → pa ≢ me
      → (k' : Kernel) × (exit c me (k, x) ≡ done (k', x₁))
        × ((wait_scan pa 0 false k'.procs).0 ≢ none)
        × ((¬ SleepsOn (proc_at pa) w)
            ⊎ ((w' : Proc) × (get_elem? k'.procs pa ≡ some w') × (w'.state ≡ runnable)))
  unfolding exit is_state
  exit-wait not_init returned init here child there apart = (
    record k₁ { procs = after },
    ended,
    λ nz. unseen nz (exit_table-Kept me k₁.initproc p.parent k₁.procs differ me p here),
    elim (Bool-cases (is_state w.state sleeping && is_chan w.chan (proc_at pa))) [
      | inl e ↦ inr (woken (asleep_inv (proc_at pa) w e))
      | inr e ↦ inl (λ s. cc (asleep (proc_at pa) w s))
    ],
  )
    where
      after : List Proc
      after = exit_table me k₁.initproc p.parent k₁.procs

      differ : k₁.initproc ≢ me
      differ = λ e. not_init (sym e ∙ init)

      allowed : (me == k.initproc) ≡ false
      allowed = ground arith

      ended : exit c me (k, x) ≡ done (record k₁ { procs = after }, x₁)
      ended =
          rw (allowed, exit)
            (bind_assoc (close_files c me nofile 0 (k, x)) (leave_cwd c me)
                (λ u. done (exit_locked c me u))
              ∙ ap (λ o. o >>= λ u. done (exit_locked c me u)) returned
              ∙ rw here refl)

      zombie_child :
          (q : Proc)
          → q.parent ≡ some pa
          → q.state ≡ zombie
          → (is_child_of pa q && is_state q.state zombie) ≡ false
          → ⊥
      zombie_child q e d no_child = ground (arith, ==_refl pa)

      dead :
          (q : Proc)
          → (((me ≡ me) × (q.state ≡ zombie))
              ⊎ ((me ≢ me) × (q.state ≡ p.state))
              ⊎ ((me ≢ me) × (q.state ≡ runnable) × (p.state ≡ sleeping)))
          → q.state ≡ zombie
      dead q (inl (_, e)) = e
      dead q (inr (inl (ne, _))) = absurd (ne refl)
      dead q (inr (inr (ne, _, _))) = absurd (ne refl)

      unseen :
          (wait_scan pa 0 false after).0 ≡ none
          → ((q : Proc) × (get_elem? after me ≡ some q)
              × (q.pid ≡ p.pid)
              × ((q.parent ≡ p.parent) ⊎ ((q.parent ≡ some k₁.initproc) × (p.parent ≡ some me)))
              × (((me ≡ me) × (q.state ≡ zombie))
                  ⊎ ((me ≢ me) × (q.state ≡ p.state))
                  ⊎ ((me ≢ me) × (q.state ≡ runnable) × (p.state ≡ sleeping))))
          → ⊥
      unseen nz (q, at, _, par, st) =
          zombie_child q
            (elim par [ inl e ↦ e ∙ child | inr e ↦ absurd (apart (some_inj (sym child ∙ e.1))) ])
            (dead q st) (HasNoZombie-wait_scan pa after nz me q at)

      woken :
          SleepsOn (proc_at pa) w
          → (w' : Proc) × (get_elem? after pa ≡ some w') × (w'.state ≡ runnable)
      woken s = exit_table-woken me k₁.initproc p.parent k₁.procs differ pa w there s child apart
