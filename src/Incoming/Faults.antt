-- ===== src/Incoming/Faults.antt =====
-- Where d445f14's side does not do what its callers expect, and where the two sides agree.
use os_ass.Common.{
  ℕ, ◌-◌, ◌^◌, ◌<◌, ◌≡◌, refl, sym, ◌∙◌, some, List, [], ◌∷◌, map, arith, ◌==◌, if◌then◌else◌,
  get_elem?, get_elem?-modify, find_index,
}
use mathlib.Core.Option
use os_ass.Common.Int.{ℤ, pos, eq_nat}
use os_ass.Proc.{Proc}
use os_ass.Signal.{raise, update_alarms}
use os_ass.Signal.Alarm.{count_own, IsDistinct, update_alarms-map}
use os_ass.Incoming.{sigsend, alarm, update_alarm, update_alarams}

-- A successful `sigsend` raises the signal in the process that calls it: the process at every other
-- index, the one with the pid included, is left as it was.
pub sigsend-sender :
    (me k n : ℕ) (ps : List Proc) (pid : ℤ)
    → find_index (λ p. eq_nat pid p.pid) ps ≡ some k
    → ((sigsend me ps pid n).0 ≡ pos 0)
      × ((j : ℕ)
          → get_elem? (sigsend me ps pid n).1 j
            ≡ (if me == j then Option.map (raise n) (get_elem? ps j) else get_elem? ps j))
unfolding sigsend
sigsend-sender me k n ps pid e = rw (e, sigsend) (refl, λ j. get_elem?-modify ps me j (raise n))

-- `alarm(0)` does not stop an alarm that runs: at the next tick it still counts down.
pub alarm_zero_runs :
    (p : Proc)
    → 0 < p.alarm_flag
    → p.alarm_flag < 2 ^ 31
    → (update_alarm (alarm p (pos 0)).1).alarm_flag ≡ p.alarm_flag - 1
unfolding alarm update_alarm
alarm_zero_runs p h k = ground arith

-- One tick is the same on both sides while the alarm is a number that is not negative.
update_alarm-count_own : (p : Proc) → p.alarm_flag < 2 ^ 31 → update_alarm p ≡ count_own p
unfolding update_alarm
update_alarm-count_own p h = ground arith

abbrev pub AllShort : List Proc → Type 0
AllShort [] = Unit
AllShort (p ∷ ps) = (p.alarm_flag < 2 ^ 31) × AllShort ps

map-update_alarm : (ps : List Proc) → AllShort ps → map update_alarm ps ≡ map count_own ps
map-update_alarm [] h = refl
map-update_alarm (p ∷ ps) (h, hs) = rw (update_alarm-count_own p h, map-update_alarm ps hs)

-- The two sides' loops over the table agree if no alarm is below 0 as a signed number, and no
-- process whose alarm runs has the pid of one before it.
pub update_alarms-eq-update_alarams :
    (ps : List Proc) → IsDistinct [] ps → AllShort ps → update_alarms ps ≡ update_alarams ps
unfolding update_alarams
update_alarms-eq-update_alarams ps d h = update_alarms-map ps d ∙ sym (map-update_alarm ps h)
