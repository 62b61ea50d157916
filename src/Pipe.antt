-- ===== src/Pipe.antt =====
-- pipe.c: a ring of 512 bytes between two processes. `p->lock` is held from one sleep to the next, so
-- a run below, from a call or a wakeup to the next sleep or the return, is one atomic step.
pub mod Queue
pub mod Fifo
mod Tests
use mathlib.Core.Option
use os_ass.Common.{
  ℕ, zero, suc, ◌+◌, ◌-◌, ◌*◌, ◌/◌, ◌%◌, ◌^◌, ◌≤◌, ◌<◌, min, ◌≡◌, refl, sym, ap, ◌∙◌, ◌≢◌, ◌↔◌, ◌⊎◌,
  inl, inr, Bool, true, false, not, ◌&&◌, ◌||◌, Option, none, some, List, [], ◌∷◌, ◌++◌, map, arith,
  ltb, leb, ◌==◌, if◌then◌else◌, Bool-cases, Option-cases, ltb→lt, lt→ltb, ==_iff, ==_refl, length,
  get_elem?, get_or, set, replicate, length-append, length-map, length-set, length-replicate,
  get_elem?-set, get_or-set, get_elem?-lt-length, modify, length-modify, get_elem?-modify,
  get_elem?-append, modify-append, find_from, find_index, IsFirst, find_index-IsFirst,
  find_index-none, Outcome, done, panic, ◌>>=◌, done_inj, some_inj,
}

abbrev pub pipe_size : ℕ
pipe_size = 512

-- `struct pipe`; `nread` and `nwrite` are words that wrap around.
pub record Pipe : Type 0 where
  pub data_of : List ℕ
  pub nread : ℕ
  pub nwrite : ℕ
  pub readopen : Bool
  pub writeopen : Bool

-- The pipe that `pipealloc` sets up on a page, whose bytes are what they were.
abbrev pub pipe_on : List ℕ → Pipe
pipe_on page = record { data_of = page; nread = 0; nwrite = 0; readopen = true; writeopen = true }

-- `pipeclose`; the Boolean says whether the page is freed.
unfoldable pub pipeclose : Pipe → (writable : Bool) → Pipe × Bool
pipeclose p writable =
    if writable
    then (record p { writeopen = false }, not p.readopen)
    else (record p { readopen = false }, not p.writeopen)

abbrev pub is_full : Pipe → Bool
is_full p = p.nwrite == (p.nread + pipe_size) % 2 ^ 32

-- `p->data[p->nwrite++ % PIPESIZE] = c`
abbrev pub push : Pipe → ℕ → Pipe
push p c = record p {
  data_of = set p.data_of (p.nwrite % pipe_size) c;
  nwrite = (p.nwrite + 1) % 2 ^ 32;
}

-- How far `pipewrite` comes before the pipe is full: the pipe and the bytes that are left.
abbrev pub fill : List ℕ → Pipe → Pipe × List ℕ
fill [] p = (p, [])
fill (c ∷ cs) p = let rest = fill cs (push p c) in if is_full p then (p, c ∷ cs) else rest

-- How a run ends: the call returns, with -1 for `failed`, or it sleeps and has these bytes left.
pub data Written : Type 0 where
  wrote : Written
  failed : Written
  asleep : (rest : List ℕ) → Written

unfoldable pub pipewrite : (killed : Bool) → List ℕ → Pipe → Pipe × Written
pipewrite killed cs p = elim (fill cs p).1 [
  | [] ↦ ((fill cs p).0, wrote)
  | c ∷ rest ↦
      if not (fill cs p).0.readopen || killed
      then ((fill cs p).0, failed)
      else ((fill cs p).0, asleep (c ∷ rest))
]

-- The copying loop of `piperead`: the bytes read, and the pipe.
abbrev pub drain : (n : ℕ) → Pipe → List ℕ × Pipe
drain zero p = ([], p)
drain (suc n) p =
    let (cs, p') = drain n (record p { nread = (p.nread + 1) % 2 ^ 32 }) in
    if p.nread == p.nwrite then ([], p) else (get_or p.data_of (p.nread % pipe_size) 0 ∷ cs, p')

pub data Read : Type 0 where
  got : (bytes : List ℕ) → Read
  failed_read : Read
  asleep_read : Read

unfoldable pub piperead : (killed : Bool) → (n : ℕ) → Pipe → Pipe × Read
piperead killed n p =
    let (cs, p') = drain n p in
    if p.nread == p.nwrite && p.writeopen
    then if killed then (p, failed_read) else (p, asleep_read)
    else (p', got cs)
