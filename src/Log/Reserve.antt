-- ===== src/Log/Reserve.antt =====
-- The space in the log that `begin_op` reserves for the operations that are under way.
use mathlib.Core.Path.{subst}
use os_ass.Log.{Log, Machine, log_size, max_op_blocks, begin_op, end_op, log_write, commit}
use os_ass.Log.Reserved.{IsReserved, begin_op-IsReserved, log_write-admits, log_write-IsReserved}
use os_ass.Log.Unwritten.{
  add_block, unwritten-bound, unwritten-middle, length-middle, HoldsAll, HoldsAll-map,
  HoldsAll-take,
}
use os_ass.Common.{
  ℕ, ◌+◌, ◌-◌, ◌%◌, ◌^◌, ◌≤◌, ◌<◌, ◌≡◌, refl, sym, ap, ◌∙◌, inl, inr, Bool, true, false, some, List,
  [], ◌∷◌, ◌++◌, arith, ltb, ◌==◌, Bool-cases, ==_iff, length, done, done_inj,
}

-- A call of an operation, where `ws` are the different blocks that those under way have written. Each
-- writes fewer of them than MAXOPBLOCKS, as often as it likes.
pub data Step (l : Log) (ws : List (List ℕ)) (l' : Log) (ws' : List (List ℕ)) : Type 0 where
  begins : begin_op l ≡ some l' → ws' ≡ [] ∷ ws → Step l ws l' ws'
  writes :
      (xs : List (List ℕ)) (w : List ℕ) (ys : List (List ℕ)) (dirty dirty' : ℕ → Bool) (b : ℕ)
      → ws ≡ xs ++ w ∷ ys
      → ws' ≡ xs ++ add_block b w ∷ ys
      → length (add_block b w) < max_op_blocks
      → log_write l dirty b ≡ done (l', dirty')
      → Step l ws l' ws'
  ends :
      (xs : List (List ℕ)) (w : List ℕ) (ys : List (List ℕ)) (m m' : Machine)
      → ws ≡ xs ++ w ∷ ys
      → ws' ≡ xs ++ ys
      → end_op l m ≡ done (l', m')
      → Step l ws l' ws'

pub data Run (l : Log) (ws : List (List ℕ)) : Log → List (List ℕ) → Type 0 where
  started : Run l ws l ws
  then_step :
      {l₁ l₂ : Log} {ws₁ ws₂ : List (List ℕ)}
      → Run l ws l₁ ws₁
      → Step l₁ ws₁ l₂ ws₂
      → Run l ws l₂ ws₂

commit_lem :
    (l : Log) (m : Machine)
    → ((commit l m).0.n ≡ 0)
      × ((commit l m).0.outstanding ≡ l.outstanding)
      × ((commit l m).0.size ≡ l.size)
      × ((commit l m).0.block ≡ l.block)
unfolding commit
commit_lem l m = elim (Bool-cases (ltb 0 l.n)) [
  | inl some_block ↦ rw some_block (refl, refl, refl, refl)
  | inr empty ↦ rw empty (ground arith, refl, refl, refl)
]

HoldsAll-none : (l : Log) (ws : List (List ℕ)) → length ws ≡ 0 → HoldsAll l ws
HoldsAll-none l [] e = tt
HoldsAll-none l (w ∷ ws) e = absurd (omega arith)

end_op-IsReserved :
    (l l' : Log) (xs : List (List ℕ)) (w : List ℕ) (ys : List (List ℕ)) (m m' : Machine)
    → IsReserved l (xs ++ w ∷ ys)
    → end_op l m ≡ done (l', m')
    → IsReserved l' (xs ++ ys)
unfolding end_op
end_op-IsReserved l l' xs w ys m m' r e = elim (Bool-cases l.committing) [
  | inl busy ↦ absurd (ground (arith, rw (end_op, busy) at e))
  | inr quiet ↦ elim (Bool-cases (out == 0)) [
    | inl last ↦
        let after = commit_lem (record l { outstanding = out; committing = true }) m in
        let is = done_inj (rw (end_op, quiet, last) at e) in
        let none_left : length (xs ++ ys) ≡ 0 = sym left ∙ (==_iff out 0).0 last in
        subst (λ q. IsReserved q (xs ++ ys)) (ap (λ (q : Log × Machine). q.0) is)
          (record {
            fits = omega (arith, after.0, unwritten-bound (xs ++ ys), none_left);
            count = after.1 ∙ left;
            idle = λ e. after.0;
            room = rw after.2 r.room;
            few = omega (arith, none_left);
            entries = ap length after.3 ∙ r.entries;
            holds =
                HoldsAll-none
                  (record ((commit (record l { outstanding = out; committing = true }) m).0) {
                    committing = false;
                  })
                  (xs ++ ys) none_left;
          })
    | inr more ↦
        let is = done_inj (rw (end_op, quiet, more) at e) in
        subst (λ q. IsReserved q (xs ++ ys)) (ap (λ (q : Log × Machine). q.0) is)
          (record {
            fits = omega (arith, r.fits, unwritten-middle xs w ys);
            count = left;
            idle = λ e. absurd (ground (arith, left));
            room = r.room;
            few = omega (arith, r.few, length-middle xs w ys);
            entries = r.entries;
            holds =
                HoldsAll-map l (record l { outstanding = out }) (xs ++ ys) (λ b h. h)
                  (HoldsAll-take l xs w ys r.holds).1;
          })
  ]
]
  where
    out : ℕ
    out = (l.outstanding + 2 ^ 32 - 1) % 2 ^ 32

    left : out ≡ length (xs ++ ys)
    left = omega (arith, r.count, length-middle xs w ys, r.few)

Step-IsReserved :
    (l : Log) (ws : List (List ℕ)) (l' : Log) (ws' : List (List ℕ))
    → IsReserved l ws
    → Step l ws l' ws'
    → IsReserved l' ws'
Step-IsReserved l ws l' ws' r (begins e at) =
    subst (IsReserved l') (sym at) (begin_op-IsReserved l l' ws r e)
Step-IsReserved l ws l' ws' r (writes xs w ys dirty dirty' b from to lt e) =
    subst (IsReserved l') (sym to)
      (log_write-IsReserved l b xs w ys (subst (IsReserved l) from r) l' dirty dirty' lt e)
Step-IsReserved l ws l' ws' r (ends xs w ys m m' from to e) =
    subst (IsReserved l') (sym to)
      (end_op-IsReserved l l' xs w ys m m' (subst (IsReserved l) from r) e)

Run-IsReserved :
    (l : Log) (ws : List (List ℕ)) (l' : Log) (ws' : List (List ℕ))
    → IsReserved l ws
    → Run l ws l' ws'
    → IsReserved l' ws'
Run-IsReserved l ws l' ws' r started = r
Run-IsReserved l ws l' ws' r (then_step {l₁} {l₂} {ws₁} {ws₂} run step) =
    Step-IsReserved l₁ ws₁ l' ws' (Run-IsReserved l ws l₁ ws₁ r run) step

-- From an empty log of at least LOGSIZE blocks with its header, however the operations begin, write and
-- end: as long as each writes fewer different blocks than MAXOPBLOCKS, `log_write` by one that is under
-- way does not panic, whether the block is new to it or not.
pub Run-log_write :
    (l : Log) (l' : Log) (xs : List (List ℕ)) (w : List ℕ) (ys : List (List ℕ)) (dirty : ℕ → Bool)
    (b : ℕ)
    → l.n ≡ 0
    → l.outstanding ≡ 0
    → log_size ≤ l.size
    → length l.block ≡ log_size
    → Run l [] l' (xs ++ w ∷ ys)
    → (l'' : Log) × (dirty' : ℕ → Bool) × (log_write l' dirty b ≡ done (l'', dirty'))
unfolding log_write
Run-log_write l l' xs w ys dirty b empty idle room entries run =
    let start : IsReserved l [] = record {
      fits = omega (arith, empty);
      count = idle;
      idle = λ e. empty;
      room = room;
      few = omega arith;
      entries = entries;
      holds = tt;
    } in
    let (fits, ops) =
      log_write-admits l' xs w ys (Run-IsReserved l [] l' (xs ++ w ∷ ys) start run) in
    rw (fits, ops) (_, _, refl)
