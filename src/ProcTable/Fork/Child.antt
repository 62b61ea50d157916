-- ===== src/ProcTable/Fork/Child.antt =====
-- The process that `fork` creates, and the files that it holds.
use os_ass.ProcTable.Fork.{dup_files, inherit, child, copy_process, Forked, fork}
use os_ass.Common.{bind_done}
use mathlib.Core.Path.{subst}
use os_ass.Common.{get_elem?-modify_self, get_elem?-modify_ne}
use os_ass.Common.Int.{pos}
use os_ass.Kalloc.{Kmem, kfree}
use os_ass.File.{File, filedup}
use os_ass.File.Holders.{count, Counts, filedup-Counts}
use os_ass.Fs.Inode.{Inode}
use os_ass.Fs.Table.{idup}
use os_ass.Fs.Table.Holders.{Held, hold-Held}
use os_ass.Proc.{Proc, runnable, unused, is_state, nofile}
use os_ass.ProcTable.{Kernel, allocproc}
use os_ass.ProcTable.Create.{IsNew, allocproc-IsNew}
use os_ass.Common.{
  ℕ, zero, suc, true, ==_iff, length, replicate, ◌-◌, ◌≡◌, refl, sym, ap, ◌∙◌, ◌≢◌, inl, inr, some,
  List, [], ◌∷◌, ◌++◌, arith, ltb, ◌==◌, if◌then◌else◌, Bool-cases, Option-cases, get_elem?, modify,
  IsFirst, done, done_inj,
}

-- The files that the descriptors refer to.
abbrev pub held_files : List ℕ → List ℕ
held_files [] = []
held_files (f ∷ fs) = if f == 0 then held_files fs else (f - 1) ∷ held_files fs

filedup-done :
    (ts ts' : List File) (hs : List ℕ) (i : ℕ)
    → Counts ts hs
    → filedup ts i ≡ done ts'
    → Counts ts' (i ∷ hs)
unfolding filedup
filedup-done ts ts' hs i c e = elim (Option-cases (get_elem? ts i)) [
  | inl null ↦ absurd (ground (arith, rw (filedup, null) at e))
  | inr (f, at) ↦ elim (Bool-cases (ltb f.ref 1)) [
    | inl z ↦ absurd (ground (arith, rw (filedup, at, z) at e))
    | inr nz ↦
        let (ts'', e', c') = filedup-Counts ts hs i f c at (ground (arith, c i f at)) in
        subst (λ q. Counts q (i ∷ hs)) (done_inj (sym e' ∙ e)) c'
  ]
]

count-middle : (i x : ℕ) (xs ys : List ℕ) → count i (xs ++ x ∷ ys) ≡ count i (x ∷ (xs ++ ys))
count-middle i x [] ys = refl
count-middle i x (y ∷ xs) ys = ground (arith, count-middle i x xs ys)

dup_files-Counts :
    (fs : List ℕ) (files files' : List File) (hs : List ℕ)
    → Counts files hs
    → dup_files fs files ≡ done files'
    → Counts files' (held_files fs ++ hs)
unfolding dup_files
dup_files-Counts [] files files' hs c e = subst (λ q. Counts q hs) (done_inj e) c
dup_files-Counts (f ∷ fs) files files' hs c e = elim (Bool-cases (f == 0)) [
  | inl z ↦ rw z (dup_files-Counts fs files files' hs c (rw (dup_files, z) at e))
  | inr nz ↦
      let (mid, e₁, e₂) =
        bind_done (filedup files (f - 1)) (dup_files fs) files' (rw (dup_files, nz) at e) in
      let c' =
        dup_files-Counts fs mid files' ((f - 1) ∷ hs) (filedup-done files mid hs (f - 1) c e₁) e₂ in
      rw nz (λ i g at. c' i g at ∙ count-middle i (f - 1) (held_files fs) hs)
]

pos_inj : {a b : ℕ} → pos a ≡ pos b → a ≡ b
pos_inj e = cc

-- Into descriptors that are all closed, the parent's are copied.
inherit_closed : (n : ℕ) (fs : List ℕ) → length fs ≡ n → inherit fs (replicate n 0) ≡ fs
inherit_closed n [] e = rw (sym e) refl
inherit_closed zero (f ∷ fs) e = absurd (omega arith)
inherit_closed (suc n) (f ∷ fs) e = elim (Bool-cases (f == 0)) [
  | inl z ↦ rw (z, inherit_closed n fs (omega arith)) (ap (λ x. x ∷ fs) (sym ((==_iff f 0).0 z)))
  | inr nz ↦ rw (nz, inherit_closed n fs (omega arith)) refl
]

-- The slots that are not in use have no descriptors left.
abbrev pub AreClosed : List Proc → Type 0
AreClosed ps =
    (j : ℕ) (q : Proc)
    → get_elem? ps j ≡ some q
    → is_state q.state unused ≡ true
    → q.ofile ≡ replicate nofile 0

-- What `fork` promises where it returns a pid.
pub record IsForked (k : Kernel) (me : ℕ) (p : Proc) (pid : ℕ) (k' : Kernel) (i : ℕ) (np : Proc)
    : Type 0 where
  pub first : IsFirst (λ q. is_state q.state unused) k.procs i
  pub there : get_elem? k'.procs i ≡ some np
  pub runs : np.state ≡ runnable
  pub numbered : (np.pid ≡ pid) × (pid ≡ k.nextpid)
  pub has_parent : np.parent ≡ some me
  pub frame : np.tf ≡ record (p.tf) { eax = 0 }
  pub memory : np.sz ≡ p.sz
  pub descriptors : np.ofile ≡ p.ofile
  pub directory : np.cwd ≡ p.cwd
  pub handlers : (np.handlers ≡ p.handlers) × (np.pending ≡ 0)
  pub others : (j : ℕ) → i ≢ j → get_elem? k'.procs j ≡ get_elem? k.procs j

module _ (kend forkret trapret : ℕ) (copyuvm : (pgdir sz : ℕ) → Kmem → ℕ × Kmem) where
  copied-IsForked :
      (k : Kernel) (me : ℕ) (p : Proc) (i : ℕ) (np : Proc) (pgdir : ℕ) (m : Kmem) (pid : ℕ)
      → np.pid ≡ pid
      → IsNew forkret trapret k i (allocproc forkret trapret k).1
      → get_elem? (allocproc forkret trapret k).1.procs i ≡ some np
      → AreClosed k.procs
      → length p.ofile ≡ nofile
      → IsForked k me p pid
          (record ((allocproc forkret trapret k).1) {
            kmem = m;
            procs = modify (allocproc forkret trapret k).1.procs i (child me pgdir p);
          })
          i
          (child me pgdir p np)
  copied-IsForked k me p i np pgdir m pid same new at closed long = record {
    first = new.first;
    there = get_elem?-modify_self (allocproc forkret trapret k).1.procs i (child me pgdir p) np at;
    runs = refl;
    numbered = (same, sym same ∙ (new.made np at).1);
    has_parent = refl;
    frame = refl;
    memory = refl;
    descriptors =
        ap (inherit p.ofile)
          (new.kept np at ∙ closed i new.first.elem new.first.here new.first.passes)
        ∙ inherit_closed nofile p.ofile long;
    directory = refl;
    handlers = (refl, (new.made np at).4);
    others = λ j ne.
        get_elem?-modify_ne (allocproc forkret trapret k).1.procs i j (child me pgdir p) ne
        ∙ new.others j ne;
  }

  -- Let the caller have NOFILE descriptors, the slots that are not in use have none left open, and the
  -- counts of the open files and of the inodes be the numbers of their holders. If `fork` returns a pid, then the first slot that
  -- was not in use holds a process that can run, has this new pid, the caller as its parent, the
  -- caller's trap frame with 0 for the result, the caller's size, descriptors, directory and handlers,
  -- and no pending signal; no other slot has changed, and the counts are right with the child's
  -- descriptors and directory counted too.
  pub fork-IsForked :
      (k : Kernel) (files : List File) (inodes : List Inode) (me : ℕ) (p : Proc) (hs is : List ℕ)
      (pid : ℕ) (k' : Kernel) (files' : List File) (inodes' : List Inode)
      → AreClosed k.procs
      → length p.ofile ≡ nofile
      → Counts files hs
      → Held inodes is
      → fork kend forkret trapret copyuvm k files inodes me p ≡ done (pos pid, k', files', inodes')
      → (i : ℕ) × (np : Proc) × IsForked k me p pid k' i np
        × Counts files' (held_files np.ofile ++ hs)
        × Held inodes' ((np.cwd - 1) ∷ is)
  unfolding fork idup
  fork-IsForked k files inodes me p hs is pid k' files' inodes' closed long c held e =
      elim (Option-cases (allocproc forkret trapret k).0) [
        | inl full ↦ absurd (ground (arith, rw (fork, full) at e))
        | inr (i, got) ↦ elim (Option-cases (get_elem? k₁.procs i)) [
          | inl nobody ↦ absurd (ground (arith, rw (fork, got, nobody) at e))
          | inr (np, at) ↦ copied i np got at (rw (fork, got, at) at e)
        ]
      ]
    where
      k₁ : Kernel
      k₁ = (allocproc forkret trapret k).1

      copied :
          (i : ℕ) (np : Proc)
          → (allocproc forkret trapret k).0 ≡ some i
          → get_elem? k₁.procs i ≡ some np
          → copy_process kend forkret trapret copyuvm k₁ files inodes me p i np
            ≡ done (pos pid, k', files', inodes')
          → (i : ℕ) × (np : Proc) × IsForked k me p pid k' i np
            × Counts files' (held_files np.ofile ++ hs)
            × Held inodes' ((np.cwd - 1) ∷ is)
      copied i np got at e = elim (Bool-cases ((copyuvm p.pgdir p.sz k₁.kmem).0 == 0)) [
        | inl failed ↦
            let (m', _, e') =
              bind_done (kfree kend (copyuvm p.pgdir p.sz k₁.kmem).1 np.kstack) _
                (pos pid, k', files', inodes') (rw failed at e) in
            absurd (ground (arith, e'))
        | inr ready ↦
            let (fs, from, e') =
              bind_done (dup_files p.ofile files) _ (pos pid, k', files', inodes')
                (rw ready at e) in
            let eq = done_inj e' in
            let same_pid : np.pid ≡ pid = pos_inj (ap (λ (q : Forked). q.0) eq) in
            let np' = child me (copyuvm p.pgdir p.sz k₁.kmem).0 p np in
            let made =
              copied-IsForked k me p i np (copyuvm p.pgdir p.sz k₁.kmem).0
                (copyuvm p.pgdir p.sz k₁.kmem).1 pid same_pid
                (allocproc-IsNew forkret trapret k i got) at closed long in
            (
              i,
              np',
              subst (λ q. IsForked k me p pid q i np') (ap (λ (q : Forked). q.1) eq) made,
              subst (λ (o : List ℕ). Counts files' (held_files o ++ hs)) (sym made.descriptors)
                  (dup_files-Counts p.ofile files files' hs c
                    (from ∙ ap done (ap (λ (q : Forked). q.2) eq))),
              subst (λ q. Held q ((p.cwd - 1) ∷ is)) (ap (λ (q : Forked). q.3) eq)
                  (hold-Held inodes is (p.cwd - 1) held),
            )
      ]
