-- ===== src/ProcTable/Tests.antt =====
-- Runs of the process table, and its theorems at concrete inputs.
use os_ass.Common.{
  ℕ, zero, suc, ◌+◌, set, ◌<◌, ◌≡◌, refl, ◌≢◌, ◌⊎◌, false, none, some, List, [], ◌∷◌, map, arith,
  get_elem?, modify, find_index, done, replicate,
}
use os_ass.Kalloc.{kalloc}
use os_ass.Proc.{Proc, unused, sleeping, runnable, zombie, is_state, proc_at, is_chan, nofile}
use os_ass.ProcTable.{
  Kernel, allocproc, give_stack, abandon, pass_on, wakeup1, sleep, exit_table, exit, wait_scan,
  Closing, close_file, close_files, leave_cwd, lock_at, wait_step, asleep,
}
use os_ass.ProcTable.Example.{process, init_process, table, kernel}
use os_ass.ProcTable.Number.{IsNumbered}
use os_ass.ProcTable.Create.{IsNew, allocproc-IsNew}
use os_ass.ProcTable.Wakeup.{SleepsOn, wakeup1-sleep}
use os_ass.ProcTable.Wait.{Answers, wait_step-Answers}
use os_ass.ProcTable.Exit.{exit_table-Kept}
use os_ass.ProcTable.Zombie.{exit-wait}

table_numbers : (i : ℕ) (p : Proc) → get_elem? table i ≡ some p → p.pid < 4
table_numbers zero p e = ground arith
table_numbers (suc zero) p e = ground arith
table_numbers (suc (suc zero)) p e = ground arith
table_numbers (suc (suc (suc i))) p e = absurd (ground arith)

-- The only slots of the table that are in use are the first two.
table_in_use :
    (i : ℕ) (p : Proc)
    → get_elem? table i ≡ some p
    → is_state p.state unused ≡ false
    → ((i ≡ 0) × (p.pid ≡ 1)) ⊎ ((i ≡ 1) × (p.pid ≡ 3))
unfolding is_state
table_in_use zero p e u = ground arith
table_in_use (suc zero) p e u = ground arith
table_in_use (suc (suc zero)) p e u = absurd (ground arith)
table_in_use (suc (suc (suc i))) p e u = absurd (ground arith)

kernel-IsNumbered : IsNumbered 4 table
kernel-IsNumbered = record {
  below_next = table_numbers;
  distinct = λ i j p q e f u v s. ground (arith, table_in_use i p e u, table_in_use j q f v);
}

allocproc-IsNew_example : IsNew 7 8 kernel 2 (allocproc 7 8 kernel).1
unfolding allocproc find_index is_state give_stack kalloc
allocproc-IsNew_example = allocproc-IsNew 7 8 kernel 2 refl

abbrev asleep_table : List Proc
asleep_table = modify table 1 (λ p. record p { chan = proc_at 1; state = sleeping })

wakeup1-sleep_example :
    get_elem? (wakeup1 (proc_at 1) asleep_table) 1
    ≡ some (record process { chan = proc_at 1; state = runnable })
unfolding sleep
wakeup1-sleep_example =
    wakeup1-sleep 1 (proc_at 1) (some (lock_at 0x80112d20)) table asleep_table asleep_table process
      refl refl refl

-- With process 3 still running, init goes to sleep in `wait`.
wait_step-Answers_example :
    Answers kernel 0 false
      (asleep (modify table 0 (λ p. record p { chan = proc_at 0; state = sleeping })))
unfolding wait_step wait_scan is_state sleep
wait_step-Answers_example =
    wait_step-Answers 0x80100000 (λ k _. done k) kernel 0 false
      (asleep (modify table 0 (λ p. record p { chan = proc_at 0; state = sleeping }))) refl

exit_table-Kept_example :
    (q : Proc) × (get_elem? (exit_table 1 0 (some 0) table) 0 ≡ some q)
    × (q.pid ≡ 1)
    × ((q.parent ≡ none) ⊎ ((q.parent ≡ some 0) × (init_process.parent ≡ some 1)))
    × (((◌≡◌ {A = ℕ} 0 1) × (q.state ≡ zombie))
        ⊎ ((◌≢◌ {A = ℕ} 0 1) × (q.state ≡ sleeping))
        ⊎ ((◌≢◌ {A = ℕ} 0 1) × (q.state ≡ runnable) × (init_process.state ≡ sleeping)))
exit_table-Kept_example = exit_table-Kept 1 0 (some 0) table (omega arith) 0 init_process refl

-- Files and inodes that only count what is closed and put back.
abbrev closing : Closing ℕ
closing = record {
  fileclose = λ f s. done (s.0, s.1 + 1);
  begin_op = λ s. done s;
  iput = λ ip s. done (s.0, s.1 + 100);
  end_op = λ s. done s;
}

-- The table when process 3 has a file open.
abbrev open_kernel : Kernel
open_kernel = record kernel {
  procs = modify table 1 (λ p. record p { ofile = set p.ofile 2 0x80111000 });
}

-- Process 3, as it is when its files and its directory are closed.
abbrev let_go : Proc
let_go = record process { ofile = replicate nofile 0; cwd = 0 }

abbrev let_go_kernel : Kernel
let_go_kernel = record kernel { procs = modify table 1 (λ p. let_go) }

exit-wait_example :
    (k' : Kernel) × (exit closing 1 (open_kernel, 0) ≡ done (k', 101))
    × ((wait_scan 0 0 false k'.procs).0 ≢ none)
    × ((¬ SleepsOn (proc_at 0) init_process)
        ⊎ ((w' : Proc) × (get_elem? k'.procs 0 ≡ some w') × (w'.state ≡ runnable)))
unfolding close_files close_file leave_cwd
exit-wait_example =
    exit-wait closing open_kernel 0 1 0 let_go_kernel 101 let_go init_process (omega arith) refl
      refl refl refl refl (omega arith)

-- After `exit` of process 3 the wait of init returns its pid.
exit_run : map (λ p. p.pid) (exit_table 1 0 (some 0) table) ≡ 1 ∷ 3 ∷ 0 ∷ []
unfolding exit_table abandon pass_on wakeup1 is_state is_chan
exit_run = refl
