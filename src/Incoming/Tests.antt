-- ===== src/Incoming/Tests.antt =====
-- Runs of d445f14's signals, and theorems about them at concrete inputs.
use os_ass.Common.{ℕ, ◌≡◌, refl, [], arith}
use os_ass.Common.Int.{pos}
use os_ass.Common.Memory.{Memory}
use os_ass.ProcTable.Example.{process}
use os_ass.Incoming.{check_pending, alarm, pick, count_shifts}
use os_ass.Incoming.Highest.{TakesHighest, check_pending-TakesHighest}

abbrev blank : Memory
blank = λ _. 0

check_pending-TakesHighest_example :
    (n : ℕ) × TakesHighest [] blank process n (check_pending [] blank process)
check_pending-TakesHighest_example =
    check_pending-TakesHighest [] blank process (omega arith) (omega arith) refl

pick_run : pick 0x4010 ≡ 14
unfolding pick count_shifts
pick_run = refl

-- `alarm(0)` takes signal 4 away with SIGALRM.
alarm_zero_run : (alarm process (pos 0)).1.pending ≡ 0
unfolding alarm
alarm_zero_run = refl
