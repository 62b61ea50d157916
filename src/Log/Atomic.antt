-- ===== src/Log/Atomic.antt =====
-- `commit` and `end_op`, with a crash at any moment.
use mathlib.Core.Path.{subst}
use os_ass.Common.{List, sym, ◌≡◌, refl, ◌⊎◌, inl, inr, [], ◌∷◌, arith, ltb, Bool-cases}
use os_ass.Log.{Blocks, Machine, Log, write_log, install_trans, write_head, commit}
use os_ass.Log.Recovery.{
  IsLog, Same, Idle, Good, All, All-map, Installing, Waiting-Same, write_head-Idle, recover,
}
use os_ass.Log.Restart.{past-write_head, recover-Recovered}
use os_ass.Log.Commit.{IsClean, Between, Installing-commit}

-- After a crash that left disk `d`, recovery brings all blocks outside the log back as in `old`, or
-- all as in `new`.
abbrev pub Atomic : Log → (old new : Blocks) → Blocks → Type 0
Atomic l old new d = Same l (recover l d).disk old ⊎ Same l (recover l d).disk new

Atomic-Between : (l : Log) (old new d : Blocks) → IsLog l → Between l old new d → Atomic l old new d
Atomic-Between l old new d w (inl idle) = inl (recover-Recovered l old w d (inl idle)).idle.1
Atomic-Between l old new d w (inr good) = inr (recover-Recovered l new w d good).idle.1

module _ (l : Log) (m : Machine) (w : IsLog l) (clean : IsClean l m) (fresh : m.past ≡ []) where
  -- The whole of a commit that logs something.
  run :
      let m' = write_head (record l { n = 0 }) (install_trans l (write_head l (write_log l m))) in
      Idle l m'.disk m.cache × All (Between l m.disk m.cache) m'.past
  run = (
    write_head-Idle (record l { n = 0 }) installed m.cache (omega (arith, w.room)) refl
        (Waiting-Same l installed.disk m.cache all.waiting),
    rw (past-write_head (record l { n = 0 }) installed) (inr (inr all.logged), all.before),
  )
    where
      installed : Machine
      installed = install_trans l (write_head l (write_log l m))

      all : Installing (Between l m.disk m.cache) l m.cache l.n installed
      all = Installing-commit l m.disk m.cache w m clean.1 record {
        cached = λ b h. refl;
        idle = (clean.0, λ b h. refl);
        copied = λ i q. absurd (omega arith);
        written = λ i q. absurd (omega arith);
        before = rw fresh tt;
      }

  nothing : l.n ≡ 0 → Idle l m.disk m.cache
  nothing e = (
    clean.0,
    λ b h. elim (clean.1 b h) [ inl same ↦ same | inr (i, from, lt, at) ↦ absurd (omega arith) ],
  )

  -- A commit that starts from a disk without a log and is not cut short brings every block outside
  -- the log onto the disk as it is in the buffers, and leaves the log empty.
  pub commit-Idle : Idle l (commit l m).1.disk m.cache × ((commit l m).0.n ≡ 0)
  unfolding commit
  commit-Idle = elim (Bool-cases (ltb 0 l.n)) [
    | inl some_logged ↦ rw (some_logged, commit) (run.0, refl)
    | inr none_logged ↦ let e : l.n ≡ 0 = ground arith in rw (none_logged, commit) (nothing e, e)
  ]

  -- Wherever a commit that starts from a disk without a log is cut short, recovery brings all
  -- blocks outside the log back as they were on the disk before, or all as they were in the
  -- buffers.
  pub commit-Atomic : All (Atomic l m.disk m.cache) ((commit l m).1.disk ∷ (commit l m).1.past)
  unfolding commit
  commit-Atomic =
      All-map (Between l m.disk m.cache) (Atomic l m.disk m.cache)
        ((commit l m).1.disk ∷ (commit l m).1.past) (λ d b. Atomic-Between l m.disk m.cache d w b)
        (elim (Bool-cases (ltb 0 l.n)) [
          | inl some_logged ↦ rw (some_logged, commit) (inr (inl run.0), run.1)
          | inr none_logged ↦ rw (none_logged, commit, fresh) (inl (clean.0, λ b h. refl), tt)
        ])

-- The disk is one of a list.
abbrev pub Passed : Blocks → List Blocks → Type 0
Passed f [] = ⊥
Passed f (d ∷ ds) = (f ≡ d) ⊎ Passed f ds

-- The disks that `d` may become when the machine starts on it again and again, and each recovery is
-- cut short at any moment, or is not.
pub data Restarts (l : Log) (d : Blocks) : Blocks → Type 0 where
  untouched : Restarts l d d
  restarted :
      {e f : Blocks}
      → Restarts l d e
      → Passed f ((recover l e).disk ∷ (recover l e).past)
      → Restarts l d f

All-Passed : (P : Blocks → Type 0) (ds : List Blocks) (f : Blocks) → All P ds → Passed f ds → P f
All-Passed P [] f a at = absurd at
All-Passed P (d ∷ ds) f (p, a) (inl e) = subst P (sym e) p
All-Passed P (d ∷ ds) f (p, a) (inr at) = All-Passed P ds f a at

Restarts-Good : (l : Log) (x d e : Blocks) → IsLog l → Good l x d → Restarts l d e → Good l x e
Restarts-Good l x d e w g untouched = g
Restarts-Good l x d f w g (restarted {e} before at) =
    let r = recover-Recovered l x w e (Restarts-Good l x d e w g before) in
    All-Passed (Good l x) ((recover l e).disk ∷ (recover l e).past) f (inl r.idle, r.before) at

-- On a disk that holds no log, or a whole one, recovery brings back the same blocks outside the log
-- and leaves the log empty, however many recoveries before it were cut short, and wherever.
pub Restarts-recover :
    (l : Log) (x d e : Blocks) → IsLog l → Good l x d → Restarts l d e → Idle l (recover l e).disk x
Restarts-recover l x d e w g restarts =
    (recover-Recovered l x w e (Restarts-Good l x d e w g restarts)).idle
