-- ===== src/ProcTable/ForkTests.antt =====
-- `fork` at a concrete table, with a process that has one open file.
use os_ass.Common.{
  ℕ, ◌-◌, zero, suc, refl, sym, ap, ◌++◌, true, false, List, [], ◌∷◌, arith, modify, find_index,
  replicate, some_inj,
}
use os_ass.Kalloc.{Kmem, kalloc}
use os_ass.File.{File, fd_inode, filedup, hold}
use os_ass.File.Holders.{Counts}
use os_ass.Proc.{Proc, is_state}
use os_ass.ProcTable.{Kernel, allocproc, give_stack}
use os_ass.ProcTable.Example.{process, kernel}
use os_ass.ProcTable.Fork.{child, dup_files, fork}
use os_ass.ProcTable.Fork.Child.{held_files, AreClosed, IsForked, fork-IsForked}
use os_ass.Fs.Inode.{Inode}
use os_ass.Fs.Table.{idup}
use os_ass.Fs.Table.Holders.{Held}

abbrev parent : Proc
parent = record process { ofile = 0 ∷ 1 ∷ replicate 14 0; cwd = 1 }

abbrev files : List File
files =
    record {
      type_of = fd_inode;
      ref = 1;
      readable = true;
      writable = false;
      pipe = 0;
      ip = 1;
      off = 0;
    }
    ∷ []

files-Counts : Counts files (0 ∷ [])
files-Counts zero f e = sym (ap (λ (q : File). q.ref) (some_inj e))
files-Counts (suc i) f e = absurd (ground arith)

-- The page directory of the copy
abbrev copyuvm : ℕ → ℕ → Kmem → ℕ × Kmem
copyuvm pgdir sz m = (0x8dff1000, m)

abbrev forked : Kernel
forked = record ((allocproc 7 8 kernel).1) {
  procs = modify (allocproc 7 8 kernel).1.procs 2 (child 1 0x8dff1000 parent);
}

-- The only slot of the table that is not in use has no descriptors.
table_closed : AreClosed kernel.procs
unfolding is_state
table_closed zero q e u = absurd (ground arith)
table_closed (suc zero) q e u = absurd (ground arith)
table_closed (suc (suc zero)) q e u = sym (ap (λ (q : Proc). q.ofile) (some_inj e))
table_closed (suc (suc (suc i))) q e u = absurd (ground arith)

abbrev inodes : List Inode
inodes =
    record {
      dev = 1;
      inum = 1;
      ref = 1;
      valid = false;
      type_of = 0;
      major = 0;
      minor = 0;
      nlink = 0;
      size = 0;
      addrs = [];
    }
    ∷ []

inodes-Held : Held inodes (0 ∷ [])
inodes-Held zero f e = sym (ap (λ (q : Inode). q.ref) (some_inj e))
inodes-Held (suc i) f e = absurd (ground arith)

fork-IsForked_example :
    (i : ℕ) × (np : Proc) × IsForked kernel 1 parent 4 forked i np
    × Counts (modify files 0 hold) (held_files np.ofile ++ 0 ∷ [])
    × Held (idup 0 inodes) ((np.cwd - 1) ∷ 0 ∷ [])
unfolding allocproc find_index is_state give_stack kalloc fork dup_files filedup
fork-IsForked_example =
    fork-IsForked 0x80108000 7 8 copyuvm kernel files inodes 1 parent (0 ∷ []) (0 ∷ []) 4 forked
      (modify files 0 hold) (idup 0 inodes) table_closed refl files-Counts inodes-Held refl
