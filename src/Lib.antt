-- ===== src/Lib.antt =====
-- A model of the kernel of this repository, an xv6 with signals, alarms and user-level threads
-- added, of the thread library uthread.c and of grep.c, and the theorems about it. The sources are
-- C; a definition here is one C function, or one named piece of a long one.
--
-- The program's parts. kalloc.c hands out physical pages from a free list. proc.c keeps the table
-- of processes: creation, scheduling, sleep and wakeup, exit and wait, and the signals a process is
-- sent. bio.c caches the blocks of the disk, log.c makes the writes of a file system call reach the
-- disk together, fs.c keeps blocks, inodes, files and directories on top of both, and file.c and
-- pipe.c are what descriptors refer to. trap.c calls the signal check on the way back to user mode,
-- and the alarm count at each clock tick.
--
-- The repository holds an unfinished merge: proc.c, proc.h, uthread.c and other files contain
-- conflict markers, and proc.c has two sets of signal functions, one under HEAD and one that came
-- with commit d445f14. Both are modelled, each as it is written: module Signal is HEAD's (proc.c
-- from line 778 on, and of uthread.c HEAD's side is modelled), module Incoming is d445f14's
-- (proc.c, lines 258 to 476).
--
-- Files.
-- - Common and its children: names of the libraries passed on, Boolean tests on numbers, lists and
--   tables (`get_elem?`, `set`, `modify`, `find_index`), bits of a word, C's `int` where it may be
--   negative (`ℤ`), a memory of bytes with 32-bit words, and the outcome of a call that may panic.
-- - Kalloc: kalloc.c, whole. The state is `kmem` with the memory the list runs through;
--   `Kalloc.Chain` reads a list of free pages off it, `Kalloc.Range` is about `freerange`, `kinit1`
--   and `kinit2`.
-- - TrapFrame: `struct trapframe` of x86.h and its layout in memory. Proc: `struct proc` of proc.h.
-- - Signal: `signal`, `sigsend`, `sigreturn`, `checkPEndingSignals`, `alarm`, `updateAlarms` of
--   HEAD, and what `syscall` (syscall.c) does with the result of `sigreturn`.
-- - Incoming: the functions of the same purpose of d445f14.
-- - Log: log.c, whole, over a disk of blocks and the buffers in front of it. Every `bwrite` records
--   the disk it replaces, so that a crash at any moment is one of those disks (`Log.Atomic`).
--   `Log.Reserve` is about operations that begin, write and end in any order, each of fewer
--   different blocks than MAXOPBLOCKS; with as many, the log that mkfs makes is one block too small.
-- - Pipe: pipe.c, the ring of bytes; `Pipe.Queue` reads it as a queue, `Pipe.Fifo` is about many
--   calls.
-- - Uthread: uthread.c, HEAD's user threads. `Uthread.Turn` is about the search for the next
--   thread, `Uthread.Switch` about the switch by way of the signal frame, `Uthread.Semaphore` about
--   binary semaphores.
-- - File: file.c, the reference counts of open files; `File.Holders` is about who holds a file.
-- - Fs: fs.c, over the blocks as the buffers hold them. `Fs.Blocks` is the bitmap of blocks
--   (`balloc`, `bfree`), `Fs.Inode` the inodes on the disk and the map of a file's blocks (`bmap`,
--   `itrunc`), `Fs.Content` is `readi` and `writei`, `Fs.Directory` the loops over the entries of a
--   directory, `Fs.Path` the elements of a path, `Fs.Table` the inodes in memory and who holds them
--   (`iget`, `ilock`, `iput`; `iput` takes what the others do while it frees an inode, without the
--   lock of the table, as a parameter). `Fs.Inode.Places` says what a well-formed file is: its blocks are
--   different, in use and off the map and the inodes.
-- - Bio: bio.c, the table of buffers and the ring of pointers through it. `Bio.Ring` reads the ring
--   as a list, `Bio.Walk` the two loops of `bget` along it; `Bio.Order` and `Bio.Release` are about
--   the cache as a whole. Waiting for a locked buffer is the result `none` of `take`.
-- - Grep: grep.c, the matcher (`Grep.Match`, against the meaning that `Grep.Pattern` gives a
--   pattern) and the loop over the input (`Grep.Output`), on the sequence of what `read` returns.
-- - Strings: string.c, on a memory of bytes; `Strings.Text` reads a C string as a list of
--   characters.
-- - ProcTable: `allocproc`, `fork` (`ProcTable.Fork`, with the table of files), `wakeup`, `kill`,
--   `exit`, `sleep`, `yield`, `wait` and a round of `scheduler`, as functions of the table of
--   processes. The calls by which `exit` closes files and lets go of the directory are an interface
--   (`Closing`): they may panic, and may change the table.
--
-- Conventions. A function that changes state takes the state and returns the new one. A pointer
-- into a table is an index into a list, `none` where the null pointer can occur. A `panic` is a
-- value of `Outcome`. Locks are not modelled inside a section of code that holds one lock
-- throughout: such a section is one atomic step, and what other processes do between two steps is
-- left open in the theorems that span several (`ProcTable.Wakeup`). Words are numbers with the
-- wrap-around written out.
--
-- Fuel. `freerange` runs on `vend / PGSIZE + 1` rounds, which is enough since each round advances
-- by a page; the theorem on `kinit1` and `kinit2` shows that the fuel does not run out. Loops over
-- tables are structural recursion on the number of entries. d445f14's bit-shifting loop runs for 33
-- rounds, as a 32-bit word is 0 after 32 shifts. The loops of uthread.c that may run for ever,
-- `findTrapframe` and the search of `uthread_schedule`, run on fuel; the theorems show that as many
-- rounds as the table has threads, or as there are words up to the mark, are enough. The loops of
-- `readi` and `writei` run for as many rounds as there are bytes, since a round copies one byte at
-- least, and the theorems on them show that the result is complete. `balloc` scans `size / BPB + 1`
-- blocks of the map. The walks along the ring of buffers run for one round more than there are
-- buffers, and the inner loop of grep for as many as there are characters. The drivers behind
-- `devsw` and the disk driver behind bio.c are parameters. The machine code of `sigretwrapper` is a
-- parameter, a list of bytes, as the compiler lays it out; so are the addresses of `forkret` and
-- `trapret`, and `freevm` and `copyuvm` of vm.c.
--
-- Not modelled: the assembly, the drivers, the boot code, page tables (vm.c), system call argument
-- fetching, the system calls of sysfile.c, and the user programs but for those named above.

pub mod Bio
pub mod Common
pub mod File
pub mod Fs
pub mod Grep
pub mod Incoming
pub mod Kalloc
pub mod Log
pub mod Pipe
pub mod Proc
pub mod ProcTable
pub mod Signal
pub mod Strings
pub mod TrapFrame
pub mod Uthread
