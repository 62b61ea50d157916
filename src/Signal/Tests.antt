-- ===== src/Signal/Tests.antt =====
-- Runs of HEAD's signals, and its theorems at concrete inputs.
use os_ass.Common.{ℕ, ◌≡◌, refl, List, [], ◌∷◌, map, arith, find_index}
use os_ass.Common.Int.{pos, minus_one}
use os_ass.Common.Memory.{Memory}
use os_ass.Proc.{Proc}
use os_ass.ProcTable.Example.{frame, process, init_process, table}
use os_ass.Signal.{
  push_signal, enter_handler, syscall_sigreturn, sigsend, check_pending, update_alarms,
  update_alarms_loop, tick, handle, first_pending,
}
use os_ass.Signal.Frame.{sigreturn-push_signal}
use os_ass.Signal.Pending.{TakesLowest, check_pending-TakesLowest}
use os_ass.Signal.Alarm.{count_own, update_alarms-map}

abbrev code : List ℕ
code = 0x6a ∷ 0 ∷ 0xb8 ∷ 24 ∷ 0 ∷ 0 ∷ 0 ∷ 0xcd ∷ 64 ∷ []

abbrev blank : Memory
blank = λ _. 0

-- The process after it has entered its handler.
abbrev in_handler : Proc
in_handler = record process { tf = enter_handler code frame 0x500 }

sigreturn-push_signal_example :
    ((syscall_sigreturn (push_signal code blank frame 4) in_handler).tf ≡ record frame { eax = 0 })
    × ((syscall_sigreturn (push_signal code blank frame 4) in_handler).pending ≡ 0x4010)
sigreturn-push_signal_example =
    sigreturn-push_signal code blank (push_signal code blank frame 4) frame 4 0x500 in_handler
      (omega arith) (omega arith) refl (λ x p q. refl)

check_pending-TakesLowest_example :
    (n : ℕ) × TakesLowest code blank process n (check_pending code blank 0x1b process)
check_pending-TakesLowest_example =
    check_pending-TakesLowest code blank 0x1b process (omega arith) (omega arith, refl, refl)

update_alarms-map_example : update_alarms table ≡ map count_own table
update_alarms-map_example =
    update_alarms-map table (λ _. tt, (λ _. (refl, tt), (λ _. (refl, (refl, tt)), tt)))

-- The alarm of process 3 has one tick left: SIGALRM becomes pending there.
update_alarms_run :
    map (λ p. p.pending) (update_alarms (init_process ∷ record process { pending = 0x10 } ∷ []))
    ≡ 0 ∷ 0x4010 ∷ []
unfolding update_alarms update_alarms_loop tick sigsend find_index
update_alarms_run = refl

-- Signal 4 is below SIGALRM and goes first.
check_pending_run : (check_pending code blank 0x1b process).proc.pending ≡ 0x4000
unfolding check_pending handle first_pending
check_pending_run = refl

sigsend_no_process : (sigsend table (pos 9) (pos 2)).0 ≡ minus_one
unfolding sigsend find_index
sigsend_no_process = refl
