-- ===== src/Proc.antt =====
-- proc.h: the processes and the state that proc.c keeps. Two lines of work meet in these files,
-- marked HEAD and d445f14 by the merge; the fields that both add stand here once.
use os_ass.Common.{ℕ, Bool, true, false, Option, List, ◌==◌}
use os_ass.TrapFrame.{TrapFrame}

-- `enum procstate`
pub data ProcState : Type 0 where
  unused embryo sleeping runnable running zombie : ProcState

-- `p->state == s`
unfoldable pub is_state : ProcState → ProcState → Bool
is_state unused unused = true
is_state embryo embryo = true
is_state sleeping sleeping = true
is_state runnable runnable = true
is_state running running = true
is_state zombie zombie = true
is_state _ _ = false

-- `struct context`
pub record Context : Type 0 where
  pub edi : ℕ
  pub esi : ℕ
  pub ebx : ℕ
  pub ebp : ℕ
  pub eip : ℕ

-- A sleep channel, any address: null, that of a process in the table, or another one.
pub data Chan : Type 0 where
  null : Chan
  proc_at : ℕ → Chan
  at : ℕ → Chan

unfoldable pub is_chan : Chan → Chan → Bool
is_chan null null = true
is_chan (proc_at i) (proc_at j) = i == j
is_chan (at a) (at b) = a == b
is_chan _ _ = false

-- `struct proc`. A `struct proc *` is an index into `ptable.proc`, or `none` for the null pointer;
-- other pointers are addresses, 0 for the null pointer. `pending` is a word of 32 bits, and so is
-- `alarm_flag`, which d445f14 reads as a signed number and HEAD as an unsigned one. `handling` is
-- `isHandlingsignal` in HEAD and `isHandelingSignal` in d445f14.
pub record Proc : Type 0 where
  pub sz : ℕ
  pub pgdir : ℕ
  pub kstack : ℕ
  pub state : ProcState
  pub pid : ℕ
  pub parent : Option ℕ
  pub tf : TrapFrame
  pub context : Context
  pub chan : Chan
  pub killed : Bool
  pub ofile : List ℕ
  pub cwd : ℕ
  pub name : List ℕ
  pub pending : ℕ
  pub handlers : List ℕ
  pub handling : Bool
  pub alarm_flag : ℕ

-- param.h
abbrev pub nproc : ℕ
nproc = 64

abbrev pub numsig : ℕ
numsig = 32

abbrev pub sigalrm : ℕ
sigalrm = 14

abbrev pub nofile : ℕ
nofile = 16

abbrev pub kstack_size : ℕ
kstack_size = 4096
