-- ===== src/ProcTable/Example.antt =====
-- A process and its trap frame, as test data.
use os_ass.Common.{true, false, none, some, List, [], ◌∷◌, replicate}
use os_ass.TrapFrame.{TrapFrame}
use os_ass.Proc.{Proc, unused, running, sleeping, null, proc_at, nofile}
use os_ass.ProcTable.{Kernel}

abbrev pub frame : TrapFrame
frame = record {
  edi = 1;
  esi = 2;
  ebp = 0x2fe8;
  oesp = 3;
  ebx = 4;
  edx = 5;
  ecx = 6;
  eax = 7;
  gs = 0;
  fs = 0;
  es = 0x23;
  ds = 0x23;
  trapno = 64;
  err = 0;
  eip = 0x120;
  cs = 0x1b;
  eflags = 0x202;
  esp = 0x2fc0;
  ss = 0x23;
}

-- Process 3 with SIGALRM and signal 4 pending, and a handler at 0x500 for signal 4.
abbrev pub process : Proc
process = record {
  sz = 0x4000;
  pgdir = 0x8dff0000;
  kstack = 0x8dfe0000;
  state = running;
  pid = 3;
  parent = some 0;
  tf = frame;
  context = record { edi = 0; esi = 0; ebx = 0; ebp = 0; eip = 0x80100000 };
  chan = null;
  killed = false;
  ofile = replicate nofile 0;
  cwd = 0x80110000;
  name = 115 ∷ 104 ∷ 0 ∷ [];
  pending = 0x4010;
  handlers = 0 ∷ 0 ∷ 0 ∷ 0 ∷ 0x500 ∷ replicate 27 0;
  handling = false;
  alarm_flag = 1;
}

-- init, asleep in `wait`.
abbrev pub init_process : Proc
init_process = record process {
  pid = 1;
  parent = none;
  state = sleeping;
  chan = proc_at 0;
  pending = 0;
  alarm_flag = 0;
}

abbrev pub free_slot : Proc
free_slot = record process { pid = 0; parent = none; state = unused; pending = 0; alarm_flag = 0 }

abbrev pub table : List Proc
table = init_process ∷ process ∷ free_slot ∷ []

-- One free page, at 0x80200000.
abbrev pub kernel : Kernel
kernel = record {
  procs = table;
  current = some 1;
  initproc = 0;
  nextpid = 4;
  kmem = record { use_lock = true; freelist = 0x80200000; mem = λ _. 0 };
}
