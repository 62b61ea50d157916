-- ===== src/ProcTable/Create.antt =====
-- `allocproc`: a new process gets the first free slot and a pid that no other has.
use mathlib.Core.Path.{subst}
use os_ass.Common.{
  ℕ, ◌+◌, ◌≡◌, refl, sym, ◌∙◌, ◌≢◌, inl, inr, Bool, false, some, List, arith, ◌==◌, Bool-cases,
  Option-cases, get_elem?, modify, get_elem?-modify_self, get_elem?-modify_ne, modify_inv, ap,
  some_inj, find_index, IsFirst, find_index-IsFirst,
}
use os_ass.Proc.{Proc, unused, embryo, is_state}
use os_ass.Kalloc.{kalloc}
use os_ass.ProcTable.{Kernel, set_up, ret_word, give_stack, allocproc}
use os_ass.ProcTable.Number.{IsNumbered, Inherits-IsNumbered, modify-AllInherit, fresh-IsNumbered}

abbrev pub is_unused : Proc → Bool
is_unused p = is_state p.state unused

module _ (forkret trapret : ℕ) where
  give_stack-IsNumbered :
      (k : Kernel) (i : ℕ)
      → IsNumbered k.nextpid k.procs
      → IsNumbered
          (give_stack forkret trapret k i).1.nextpid
          (give_stack forkret trapret k i).1.procs
  unfolding give_stack is_state
  give_stack-IsNumbered k i n = elim (Bool-cases ((kalloc k.kmem).0 == 0)) [
    | inl e ↦
        rw (e, give_stack)
          (Inherits-IsNumbered k.nextpid k.procs
            (modify k.procs i (λ p. record p { kstack = 0; state = unused })) n
            (modify-AllInherit k.procs i (λ p. record p { kstack = 0; state = unused })
              (λ p. (omega arith, λ u. cc))))
    | inr e ↦
        rw (e, give_stack)
          (Inherits-IsNumbered k.nextpid k.procs
            (modify k.procs i (set_up forkret trapret (kalloc k.kmem).0 (kalloc k.kmem).1.mem)) n
            (modify-AllInherit k.procs i
              (set_up forkret trapret (kalloc k.kmem).0 (kalloc k.kmem).1.mem)
              (λ p. (omega arith, λ u. (u, refl)))))
  ]

  -- If the processes in use have pids that differ and are below `nextpid`, then so they do after
  -- `allocproc`, whether it succeeds, finds no free slot, or gets no memory.
  pub allocproc-IsNumbered :
      (k : Kernel)
      → IsNumbered k.nextpid k.procs
      → IsNumbered (allocproc forkret trapret k).1.nextpid (allocproc forkret trapret k).1.procs
  unfolding allocproc
  allocproc-IsNumbered k n =
      elim (Option-cases (find_index (λ p. is_state p.state unused) k.procs)) [
        | inl e ↦ rw (e, allocproc) n
        | inr (i, e) ↦
            rw (e, allocproc)
              (give_stack-IsNumbered (taken i) i (
                fresh-IsNumbered k.nextpid k.procs i
                  (λ p. record p { state = embryo; pid = k.nextpid }) n (λ p. refl)))
      ]
    where
      taken : ℕ → Kernel
      taken i = record k {
        procs = modify k.procs i (λ p. record p { state = embryo; pid = k.nextpid });
        nextpid = k.nextpid + 1;
      }

  -- The slot `i` after `allocproc` has filled it.
  pub record IsNew (k : Kernel) (i : ℕ) (k' : Kernel) : Type 0 where
    pub first : IsFirst is_unused k.procs i
    pub made :
        (p : Proc)
        → get_elem? k'.procs i ≡ some p
        → (p.state ≡ embryo)
          × (p.pid ≡ k.nextpid)
          × (p.kstack ≢ 0)
          × (p.context.eip ≡ forkret)
          × (p.pending ≡ 0)
          × (p.alarm_flag ≡ 0xffffffff)
    pub kept : (p : Proc) → get_elem? k'.procs i ≡ some p → p.ofile ≡ first.elem.ofile
    pub others : (j : ℕ) → i ≢ j → get_elem? k'.procs j ≡ get_elem? k.procs j
    pub next : k'.nextpid ≡ k.nextpid + 1

  -- If `allocproc` succeeds, it has taken the first slot that is not in use: the process there has
  -- the next pid, a kernel stack, a context that starts at `forkret`, no pending signal and -1 for
  -- its alarm, the descriptors that the slot had, and is an EMBRYO. No other slot has changed.
  pub allocproc-IsNew :
      (k : Kernel) (i : ℕ)
      → (allocproc forkret trapret k).0 ≡ some i
      → IsNew k i (allocproc forkret trapret k).1
  unfolding allocproc give_stack
  allocproc-IsNew k i h = elim (Option-cases (find_index is_unused k.procs)) [
    | inl e ↦ absurd (ground (arith, e))
    | inr (n, e) ↦ elim (Bool-cases ((kalloc k.kmem).0 == 0)) [
      | inl none_left ↦ absurd (ground (arith, e, none_left))
      | inr found ↦
          let same : n ≡ i = ground (arith, e, found) in
          rw (e, allocproc, found, give_stack)
            (subst (λ j. IsNew k j (stacked n)) same (built n e found))
    ]
  ]
    where
      number : Proc → Proc
      number p = record p { state = embryo; pid = k.nextpid }

      taken : ℕ → List Proc
      taken n = modify k.procs n number

      setup : Proc → Proc
      setup = set_up forkret trapret (kalloc k.kmem).0 (kalloc k.kmem).1.mem

      stacked : ℕ → Kernel
      stacked n = record k {
        procs = modify (taken n) n setup;
        nextpid = k.nextpid + 1;
        kmem = ret_word forkret trapret (kalloc k.kmem).0 (kalloc k.kmem).1;
      }

      built :
          (n : ℕ)
          → find_index is_unused k.procs ≡ some n
          → ((kalloc k.kmem).0 == 0) ≡ false
          → IsNew k n (stacked n)
      built n e found = record {
        first = find_index-IsFirst is_unused k.procs n e;
        made = λ p at. elim (modify_inv (taken n) n n setup p at) [
          | inl (_, (q, was, is)) ↦ elim (modify_inv k.procs n n number q was) [
            | inl (_, (r, _, is')) ↦
                rw (is, is') (refl, refl, λ z. absurd (ground (arith, found)), refl, refl, refl)
            | inr (ne, _) ↦ absurd (ne refl)
          ]
          | inr (ne, _) ↦ absurd (ne refl)
        ];
        kept = λ p at.
            let old = find_index-IsFirst is_unused k.procs n e in
            ap (λ (q : Proc). q.ofile)
              (some_inj (
                sym at
                ∙ get_elem?-modify_self (taken n) n setup (number old.elem)
                    (get_elem?-modify_self k.procs n number old.elem old.here)));
        others = λ j ne.
            get_elem?-modify_ne (taken n) n j setup ne ∙ get_elem?-modify_ne k.procs n j number ne;
        next = refl;
      }
