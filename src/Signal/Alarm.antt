-- ===== src/Signal/Alarm.antt =====
-- `updateAlarms`: each process counts its own alarm down.
use os_ass.Common.{
  ℕ, suc, ◌+◌, ◌-◌, ◌<◌, ◌≡◌, refl, ap, ◌∙◌, inl, inr, false, some, List, [], ◌∷◌, ◌++◌, map, arith,
  ltb, ◌==◌, if◌then◌else◌, Bool-cases, ltb→lt, length, length-append, length-map, modify,
  get_elem?-append, modify-append, find_from, find_index,
}
use mathlib.Core.List.{map-append, append_assoc}
use native.Mathlib.Numerals.{add-one}
use os_ass.Common.Int.{pos, eq_nat}
use os_ass.Proc.{Proc, sigalrm}
use os_ass.Signal.{raise, sigsend, tick, update_alarms_loop, update_alarms}

-- What a tick does to one process.
abbrev pub count_own : Proc → Proc
count_own p =
    if ltb 0 p.alarm_flag
    then if p.alarm_flag - 1 == 0
      then raise sigalrm (record p { alarm_flag = p.alarm_flag - 1 })
      else record p { alarm_flag = p.alarm_flag - 1 }
    else p

-- No process of the list has the pid of `p`.
abbrev pub Apart : List Proc → Proc → Type 0
Apart [] p = Unit
Apart (q ∷ qs) p = ((p.pid == q.pid) ≡ false) × Apart qs p

-- A process whose alarm runs has a pid that none before it has.
abbrev pub IsDistinct : (before ps : List Proc) → Type 0
IsDistinct before [] = Unit
IsDistinct before (p ∷ ps) = (0 < p.alarm_flag → Apart before p) × IsDistinct (before ++ p ∷ []) ps

pid-count_own : (p : Proc) → (count_own p).pid ≡ p.pid
pid-count_own p = ground arith

Apart-map : (qs : List Proc) (p : Proc) → Apart qs p → Apart (map count_own qs) p
Apart-map [] p a = tt
Apart-map (q ∷ qs) p (ne, a) = (rw (pid-count_own q) ne, Apart-map qs p a)

-- The scan of `sigsend` for the pid of `p` passes over the processes before it.
find_from-Apart :
    (start : ℕ) (qs : List Proc) (p p' : Proc) (ps : List Proc)
    → Apart qs p
    → p'.pid ≡ p.pid
    → find_from (λ q. eq_nat (pos p.pid) q.pid) start (qs ++ p' ∷ ps) ≡ some (start + length qs)
unfolding find_from
find_from-Apart start [] p p' ps a e = ground arith
find_from-Apart start (q ∷ qs) p p' ps (ne, a) e =
    rw (ne, find_from-Apart (suc start) qs p p' ps a e) (ground arith)

sigsend-append :
    (qs : List Proc) (p p' : Proc) (ps : List Proc)
    → Apart qs p
    → p'.pid ≡ p.pid
    → (sigsend (qs ++ p' ∷ ps) (pos p.pid) (pos sigalrm)).1 ≡ qs ++ raise sigalrm p' ∷ ps
unfolding sigsend find_index
sigsend-append qs p p' ps a e =
    rw (find_from-Apart 0 qs p p' ps a e, sigsend)
      (ap (λ i. modify (qs ++ p' ∷ ps) i (raise sigalrm)) (omega arith)
        ∙ modify-append qs p' ps (raise sigalrm))

tick-append :
    (qs : List Proc) (p : Proc) (ps : List Proc)
    → (0 < p.alarm_flag → Apart qs p)
    → tick (qs ++ p ∷ ps) (length qs) ≡ qs ++ count_own p ∷ ps
unfolding tick
tick-append qs p ps apart = elim (Bool-cases (ltb 0 p.alarm_flag)) [
  | inl runs ↦
      rw (get_elem?-append qs p ps, tick, runs, modify-append qs p ps less)
        (elim (Bool-cases (p.alarm_flag - 1 == 0)) [
          | inl due ↦
              rw due (sigsend-append qs p (less p) ps (apart (ltb→lt 0 p.alarm_flag runs)) refl)
          | inr later ↦ rw later
        ])
  | inr off ↦ rw (get_elem?-append qs p ps, tick, off)
]
  where
    less : Proc → Proc
    less q = record q { alarm_flag = q.alarm_flag - 1 }

loop-map :
    (qs ps : List Proc)
    → IsDistinct qs ps
    → update_alarms_loop (length ps) (length qs) (map count_own qs ++ ps)
      ≡ map count_own qs ++ map count_own ps
unfolding update_alarms_loop
loop-map qs [] d = refl
loop-map qs (p ∷ ps) (apart, d) =
    ap (update_alarms_loop (length ps) (suc (length qs))) (
      rw (← length-map count_own qs)
        (tick-append (map count_own qs) p ps (λ h. Apart-map qs p (apart h))))
    ∙ simp (map-append, append_assoc, length-append, add-one) at (loop-map (qs ++ p ∷ []) ps d)

-- If no process whose alarm runs has the pid of one before it, a clock tick does to every process
-- what its own alarm says: a running alarm loses a tick, one that reaches 0 raises SIGALRM in its
-- own process, and nothing else changes.
pub update_alarms-map : (ps : List Proc) → IsDistinct [] ps → update_alarms ps ≡ map count_own ps
unfolding update_alarms
update_alarms-map ps d = loop-map [] ps d
