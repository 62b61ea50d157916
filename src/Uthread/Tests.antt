-- ===== src/Uthread/Tests.antt =====
-- User threads at concrete inputs: three threads, of which the first runs and the second can.
use os_ass.Common.{
  ℕ, zero, suc, ◌≡◌, refl, sym, false, Option, none, some, [], ◌∷◌, arith, ◌==◌, if◌then◌else◌,
  get_elem?, replicate, length-replicate, some_inj,
}
use os_ass.Common.Memory.{Memory, load_word, load_words}
use os_ass.TrapFrame
use os_ass.TrapFrame.{TrapFrame, IsWords, load_frame}
use os_ass.Proc.{Proc}
use os_ass.ProcTable.Example.{frame, process}
use os_ass.Uthread.{
  t_running, t_runnable, t_sleeping, Thread, Threads, find_trapframe, uthread_schedule,
}
use os_ass.Uthread.Switch.{Switched, uthread_schedule-sigreturn}
use os_ass.Uthread.Semaphore.{Bsem, new_bsem, bsem_down, bsem_up}
use os_ass.Uthread.Semaphore.Waiters.{
  free, held, Stands, down_sem, DownThreads, UpThreads, bsem_down-Stands, bsem_up-Stands,
}

-- A zero memory with the mark at 1076.
abbrev marked : Memory
marked x = if x == 1076 then 0xEF else if x == 1077 then 0xCD else if x == 1078 then 0xAB else 0

abbrev first_thread : Thread
first_thread = record {
  tid = 1;
  t_stack = 0;
  state = t_running;
  tf = frame;
  pid = 3;
  num_of_joining = 0;
  joining_list = replicate 64 0;
  wakeup = 0;
  t_ind = 0;
}

abbrev threads : Threads
threads = record {
  table =
      first_thread
      ∷ record first_thread { tid = 2; t_stack = 0x5000; state = t_runnable; t_ind = 1 }
      ∷ record first_thread { tid = 3; t_stack = 0x7000; state = t_sleeping; t_ind = 2 }
      ∷ [];
  current = 0;
  current_ind = 0;
  nexttid = 4;
  num_of_threads = 3;
  alarm = 5;
  sent = false;
  freed = [];
}

found_at_once : find_trapframe 3 marked 1076 ≡ some 1000
unfolding find_trapframe load_word
found_at_once = refl

frames-IsWords : (j : ℕ) (v : Thread) → get_elem? threads.table j ≡ some v → IsWords v.tf
frames-IsWords zero v e = rw (sym (some_inj e)) (omega arith)
frames-IsWords (suc zero) v e = rw (sym (some_inj e)) (omega arith)
frames-IsWords (suc (suc zero)) v e = rw (sym (some_inj e)) (omega arith)
frames-IsWords (suc (suc (suc j))) v e = absurd (cc)

-- The handler that the process is in, with its frame pointer below the saved frame.
abbrev in_schedule : Proc
in_schedule = record process { tf = record frame { ebp = 992 } }

uthread_schedule-sigreturn_example :
    (m' : Memory) × (s' : Threads) × (uthread_schedule 3 (λ k. 100) 1076 marked threads
      ≡ some (m', s'))
    × Switched (λ k. 100) marked 1000 threads in_schedule m' s'
unfolding load_frame TrapFrame.of_words load_words load_word
uthread_schedule-sigreturn_example =
    uthread_schedule-sigreturn 3 (λ k. 100) 1076 1000 marked threads first_thread in_schedule
      found_at_once refl refl (omega arith) (omega arith) frames-IsWords refl

abbrev taken : Bsem
taken = record (new_bsem (replicate 64 none)) { s = 0 }

taken-Stands : Stands taken (held [])
taken-Stands = (
  record {
    space = length-replicate {A = Option ℕ} 64 none;
    small = omega arith;
    out = omega arith;
    next = refl;
  },
  refl,
  refl,
)

bsem_down-Stands_example :
    let (b', t') = bsem_down 100 taken threads in
    Stands b' (down_sem 0 (held [])) × DownThreads (held []) threads t'
bsem_down-Stands_example = bsem_down-Stands 100 taken (held []) threads taken-Stands (omega arith)

bsem_up-Stands_example :
    (b' : Bsem) × (t' : Threads) × (bsem_up taken threads ≡ some (b', t'))
    × Stands b' free
    × UpThreads none threads t'
    × (t'.alarm ≡ 5)
bsem_up-Stands_example = bsem_up-Stands taken (held []) threads taken-Stands
