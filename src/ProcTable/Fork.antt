-- ===== src/ProcTable/Fork.antt =====
-- proc.c: `fork`.
pub mod Child
use os_ass.Common.{bind_done}
use mathlib.Core.Path.{subst}
use os_ass.Common.{get_elem?-modify_self, get_elem?-modify_ne}
use os_ass.Common.Int.{ℤ, pos, minus_one}
use os_ass.Kalloc.{Kmem, kfree}
use os_ass.File.{File, filedup}
use os_ass.File.Holders.{count, Counts, filedup-Counts}
use os_ass.Fs.Inode.{Inode}
use os_ass.Fs.Table.{idup}
use os_ass.Proc.{Proc, runnable, unused, is_state}
use os_ass.ProcTable.{Kernel, allocproc}
use os_ass.ProcTable.Create.{IsNew, allocproc-IsNew}
use os_ass.Common.{
  ℕ, zero, suc, ◌-◌, ◌≡◌, refl, sym, ap, ◌∙◌, ◌≢◌, inl, inr, none, some, List, [], ◌∷◌, ◌++◌, arith,
  ltb, ◌==◌, if◌then◌else◌, Bool-cases, Option-cases, get_elem?, modify, IsFirst, Outcome, done,
  panic, ◌>>=◌, done_inj,
}

-- The loop over the descriptors: 0 is the null pointer, and `f + 1` points to entry `f` of the table of
-- files.
unfoldable pub dup_files : List ℕ → List File → Outcome (List File)
dup_files [] files = done files
dup_files (f ∷ fs) files =
    if f == 0 then dup_files fs files else filedup files (f - 1) >>= dup_files fs

-- `np->ofile[i] = filedup(...)` where the parent has a file
abbrev pub inherit : (parent child : List ℕ) → List ℕ
inherit [] cs = cs
inherit (f ∷ fs) [] = []
inherit (f ∷ fs) (c ∷ cs) = (if f == 0 then c else f) ∷ inherit fs cs

-- `safestrcpy` to an array of `n + 1` characters
unfoldable pub copy_name : (n : ℕ) (dst src : List ℕ) → List ℕ
copy_name n [] src = []
copy_name zero (d ∷ ds) src = 0 ∷ ds
copy_name (suc n) (d ∷ ds) [] = d ∷ ds
copy_name (suc n) (d ∷ ds) (c ∷ cs) =
    let rest = copy_name n ds cs in c ∷ (if c == 0 then copy_name 0 ds cs else rest)

-- The child, before and after it can run.
abbrev pub child : (me pgdir : ℕ) → Proc → Proc → Proc
child me pgdir p np = record np {
  pgdir = pgdir;
  sz = p.sz;
  parent = some me;
  tf = record (p.tf) { eax = 0 };
  ofile = inherit p.ofile np.ofile;
  cwd = p.cwd;
  name = copy_name 15 np.name p.name;
  handlers = p.handlers;
  state = runnable;
}

abbrev pub undo : Proc → Proc
undo np = record np { kstack = 0; state = unused }

abbrev pub Forked : Type 0
Forked = ℤ × Kernel × List File × List Inode

module _ (kend forkret trapret : ℕ) (copyuvm : (pgdir sz : ℕ) → Kmem → ℕ × Kmem) where
  -- From the copy of the memory on, for the new process `np` in slot `i`.
  abbrev pub copy_process :
      Kernel → List File → List Inode → (me : ℕ) → Proc → (i : ℕ) → Proc → Outcome Forked
  copy_process k files inodes me p i np =
      let (pgdir, m) = copyuvm p.pgdir p.sz k.kmem in
      if pgdir == 0
      then (kfree kend m np.kstack >>= λ m'.
          done (minus_one, record k { kmem = m'; procs = modify k.procs i undo }, files, inodes))
      else (dup_files p.ofile files >>= λ files'. done (
        pos np.pid,
        record k { kmem = m; procs = modify k.procs i (child me pgdir p) },
        files',
        idup (p.cwd - 1) inodes,
      ))

  -- `fork` by process `me`, which is `p`. The slot that `allocproc` returns is in the table.
  unfoldable pub fork : Kernel → List File → List Inode → (me : ℕ) → Proc → Outcome Forked
  fork k files inodes me p =
      let k' = (allocproc forkret trapret k).1 in
      elim (allocproc forkret trapret k).0 [
        | none ↦ done (minus_one, k', files, inodes)
        | some i ↦ elim (get_elem? k'.procs i) [
          | none ↦ panic "fork"
          | some np ↦ copy_process k' files inodes me p i np
        ]
      ]
