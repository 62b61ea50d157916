-- ===== src/Log/Commit.antt =====
-- `commit`: at whatever moment the machine stops, recovery finds the blocks as they were before or as
-- they were to become.
use mathlib.Core.Path.{subst}
use os_ass.Common.{
  ℕ, zero, suc, ◌+◌, ◌≤◌, ◌<◌, ◌≡◌, sym, ap, ◌∙◌, ◌⊎◌, inl, inr, arith, ◌==◌, Bool-cases, ==_iff,
}
use os_ass.Log.{
  Block, Blocks, put, Machine, bwrite, copy, Log, write_log_loop, write_log, install_trans,
  head_block, write_head,
}
use os_ass.Log.Recovery.{
  entry, IsLog, Same, Idle, Waiting, Logged, Good, All, Installing, install_loop-Installing,
  write_head_lem, put_same, put_other,
}
use os_ass.Log.Restart.{past-write_head}

-- The state in which `commit` is called: nothing is logged on the disk, and the buffers that differ
-- from the disk are entries of the log.
abbrev pub IsClean : Log → Machine → Type 0
IsClean l m = (m.disk l.start 0 ≡ 0) × Waiting 0 l m.disk m.cache

-- What a crash may leave during a commit: the blocks of before, or a good disk for those to come.
abbrev pub Between : Log → (old new : Blocks) → Blocks → Type 0
Between l old new d = Idle l d old ⊎ Good l new d

module _ (l : Log) (old x : Blocks) (w : IsLog l) where
  -- The state of `write_log` before entry `tail`.
  pub record Writing (tail : ℕ) (m : Machine) : Type 0 where
    pub cached : Same l m.cache x
    pub idle : Idle l m.disk old
    pub copied : (i : ℕ) → i < tail → m.cache (l.start + i + 1) ≡ x (entry l i)
    pub written : (i : ℕ) → i < tail → m.disk (l.start + i + 1) ≡ x (entry l i)
    pub before : All (Between l old x) m.past

  abbrev write_one : ℕ → Machine → Machine
  write_one tail m = bwrite (copy m (l.start + tail + 1) (entry l tail)) (l.start + tail + 1)

  write_step :
      (tail : ℕ) (m : Machine) → tail < l.n → Writing tail m → Writing (suc tail) (write_one tail m)
  write_step tail m p s = record {
    cached = λ b h.
        put_other m.cache at b (m.cache (entry l tail)) (omega (arith, h, w.room)) ∙ s.cached b h;
    idle = (
      ap (λ (y : Block). y 0) (put_other m.disk at l.start _ (omega arith)) ∙ s.idle.0,
      λ b h. put_other m.disk at b _ (omega (arith, h, w.room)) ∙ s.idle.1 b h,
    );
    copied = λ i q. elim (Bool-cases (i == tail)) [
      | inl e ↦
          subst (λ j. put m.cache at (m.cache (entry l tail)) (l.start + j + 1) ≡ x (entry l j))
            (sym ((==_iff i tail).0 e)) new
      | inr e ↦ put_other m.cache at (l.start + i + 1) _ (ground arith) ∙ s.copied i (ground arith)
    ];
    written = λ i q. elim (Bool-cases (i == tail)) [
      | inl e ↦
          subst
            (λ j.
              put m.disk at (put m.cache at (m.cache (entry l tail)) at) (l.start + j + 1)
              ≡ x (entry l j))
            (sym ((==_iff i tail).0 e)) (put_same m.disk at _ ∙ new)
      | inr e ↦ put_other m.disk at (l.start + i + 1) _ (ground arith) ∙ s.written i (ground arith)
    ];
    before = (inl s.idle, s.before);
  }
    where
      at : ℕ
      at = l.start + tail + 1

      new : put m.cache at (m.cache (entry l tail)) at ≡ x (entry l tail)
      new = put_same m.cache at (m.cache (entry l tail)) ∙ s.cached (entry l tail) (w.homes tail p)

  write_log_loop-Writing :
      (r tail : ℕ) (m : Machine)
      → tail + r ≡ l.n
      → Writing tail m
      → Writing l.n (write_log_loop l r tail m)
  write_log_loop-Writing zero tail m e s = subst (λ t. Writing t m) (omega arith ∙ e) s
  write_log_loop-Writing (suc r) tail m e s =
      write_log_loop-Writing r (suc tail) (write_one tail m) (omega arith)
        (write_step tail m (omega arith) s)

  -- Writing the header is the moment at which the new blocks become the ones to come back to.
  write_head-Logged :
      (m : Machine) → Waiting 0 l old x → Writing l.n m → Logged l (write_head l m).disk x
  write_head-Logged m wait s = rw (write_head_lem l m) record {
    head = ap (λ (y : Block). y 0) head;
    numbers = λ i p. ap (λ (y : Block). y (suc i)) head ∙ number i p;
    copies = λ i p. put_other m.disk l.start (l.start + i + 1) _ (omega arith) ∙ s.written i p;
    waiting = λ b h.
        subst (λ y. (y ≡ x b) ⊎ ((i : ℕ) × (0 ≤ i) × (i < l.n) × (entry l i ≡ b)))
          (sym (put_other m.disk l.start b _ (omega (arith, h, w.room)) ∙ s.idle.1 b h)) (wait b h);
  }
    where
      head :
          put m.disk l.start (head_block l (m.cache l.start)) l.start
          ≡ head_block l (m.cache l.start)
      head = put_same m.disk l.start (head_block l (m.cache l.start))

      number : (i : ℕ) → i < l.n → head_block l (m.cache l.start) (suc i) ≡ entry l i
      number i p = ground arith

  write_head-cached :
      (m : Machine)
      → Writing l.n m
      → (i : ℕ) → i < l.n
      → (write_head l m).cache (l.start + i + 1) ≡ x (entry l i)
  unfolding write_head
  write_head-cached m s i p =
      put_other m.cache l.start (l.start + i + 1) _ (omega arith) ∙ s.copied i p

  pub Installing-commit :
      (m : Machine)
      → Waiting 0 l old x
      → Writing 0 m
      → Installing (Between l old x) l x l.n (install_trans l (write_head l (write_log l m)))
  unfolding write_log install_trans
  Installing-commit m wait s =
      install_loop-Installing (Between l old x) l x w (λ d g. inr (inr g)) l.n 0 (write_head l at)
        (omega arith)
        record {
          cached = write_head-cached at end;
          logged = logged;
          waiting = logged.waiting;
          before = rw (past-write_head l at) (inl end.idle, end.before);
        }
    where
      at : Machine
      at = write_log_loop l l.n 0 m

      end : Writing l.n at
      end = write_log_loop-Writing l.n 0 m (omega arith) s

      logged : Logged l (write_head l at).disk x
      logged = write_head-Logged at wait end
