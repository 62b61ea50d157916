-- ===== src/Pipe/Fifo.antt =====
-- A pipe over many calls by its two ends: bytes come out in the order in which they went in.
use mathlib.Core.List.{append_assoc, append-nil}
use os_ass.Common.{
  ℕ, ◌≤◌, ◌≡◌, refl, sym, ap, ◌∙◌, ◌≢◌, ◌⊎◌, inl, inr, Bool, true, false, not, ◌&&◌, ◌||◌, List, [],
  ◌∷◌, ◌++◌, arith, ◌==◌, Bool-cases, length,
}
use os_ass.Pipe.{
  Pipe, pipeclose, is_full, fill, Written, wrote, failed, asleep, pipewrite, Read, got, failed_read,
  asleep_read, piperead,
}
use os_ass.Pipe.Queue.{contents, IsPipe, accepted, Filled, fill-Filled, drain-Drained}

-- How a run of `pipewrite` ends: all bytes have gone in; or the pipe is full, and the call fails, as
-- no one can read or the caller is killed; or the pipe is full, and the call sleeps with the rest.
abbrev pub Ends : (killed : Bool) → List ℕ → Pipe → Pipe → Written → Type 0
Ends killed cs p p' wrote = accepted cs p ≡ cs
Ends killed cs p p' failed = (is_full p' ≡ true) × ((p'.readopen ≡ false) ⊎ (killed ≡ true))
Ends killed cs p p' (asleep rest) =
    (is_full p' ≡ true)
    × (cs ≡ accepted cs p ++ rest)
    × (rest ≢ [])
    × (p'.readopen ≡ true)
    × (killed ≡ false)

-- A run of `pipewrite` puts the bytes that it accepts behind those in the pipe, and keeps the pipe
-- well formed. It ends when all bytes are in; or at a full pipe, when nobody can read or the caller
-- is killed, with -1; or at a full pipe, asleep, with exactly the other bytes left.
pub pipewrite-Ends :
    (killed : Bool) (cs : List ℕ) (p : Pipe)
    → IsPipe p
    → let (p', end) = pipewrite killed cs p in
      Ends killed cs p p' end × IsPipe p' × (contents p' ≡ contents p ++ accepted cs p)
unfolding pipewrite
pipewrite-Ends killed cs p w = go (fill-Filled cs p w) (fill cs p).1 refl
  where
    full :
        Filled p cs (accepted cs p) (fill cs p).0 (fill cs p).1
        → (c : ℕ) (rest : List ℕ) → (fill cs p).1 ≡ c ∷ rest
        → is_full (fill cs p).0 ≡ true
    full f c rest e = elim f.stopped [ inl none_left ↦ absurd (cc) | inr y ↦ y ]

    go :
        Filled p cs (accepted cs p) (fill cs p).0 (fill cs p).1
        → (rest : List ℕ) → (fill cs p).1 ≡ rest
        → let (p', end) = pipewrite killed cs p in
          Ends killed cs p p' end × IsPipe p' × (contents p' ≡ contents p ++ accepted cs p)
    go f [] e =
        rw (e, pipewrite) (sym (f.split ∙ rw e (append-nil (accepted cs p))), f.fits, f.queued)
    go f (c ∷ rest) e = elim (Bool-cases (not (fill cs p).0.readopen || killed)) [
      | inl stop ↦ rw (e, pipewrite, stop) ((full f c rest e, ground arith), f.fits, f.queued)
      | inr on ↦
          rw (e, pipewrite, on)
            (
              (
                full f c rest e,
                f.split ∙ ap (λ xs. accepted cs p ++ xs) e,
                (λ z. cc),
                ground arith,
                ground arith,
              ),
              f.fits,
              f.queued,
            )
    ]

-- How a run of `piperead` ends: the bytes come from the front of the queue, and fewer than asked for
-- only if there are no more; or the pipe is empty and open for writing, and the call fails, as the
-- caller is killed, or sleeps.
abbrev pub EndsRead : (killed : Bool) → (n : ℕ) → Pipe → Pipe → Read → Type 0
EndsRead killed n p p' (got bytes) =
    (contents p ≡ bytes ++ contents p')
    × (length bytes ≤ n)
    × ((length bytes ≡ n) ⊎ (contents p' ≡ []))
EndsRead killed n p p' failed_read =
    (p' ≡ p) × (p.nread ≡ p.nwrite) × (p.writeopen ≡ true) × (killed ≡ true)
EndsRead killed n p p' asleep_read =
    (p' ≡ p) × (p.nread ≡ p.nwrite) × (p.writeopen ≡ true) × (killed ≡ false)

-- A run of `piperead` takes its bytes from the front of the pipe, at most as many as asked for and
-- fewer only if it leaves the pipe empty. Or it finds the pipe empty and open for writing: then it
-- fails if the caller is killed and otherwise sleeps, and the pipe stays as it was.
pub piperead-EndsRead :
    (killed : Bool) (n : ℕ) (p : Pipe)
    → IsPipe p
    → let (p', end) = piperead killed n p in EndsRead killed n p p' end × IsPipe p'
unfolding piperead
piperead-EndsRead killed n p w = elim (Bool-cases (p.nread == p.nwrite && p.writeopen)) [
  | inl empty ↦ elim (Bool-cases killed) [
    | inl y ↦ rw (empty, y) ((refl, ground arith, ground arith, refl), w)
    | inr m ↦ rw (empty, m) ((refl, ground arith, ground arith, refl), w)
  ]
  | inr some_bytes ↦
      let d = drain-Drained n p w in rw some_bytes ((d.queued, d.within, d.stopped), d.fits)
]

-- What the two ends do, one run after another.
pub data Call : Type 0 where
  write : (killed : Bool) → List ℕ → Call
  read : (killed : Bool) → (n : ℕ) → Call
  close : (writable : Bool) → Call

abbrev pub bytes_of : Read → List ℕ
bytes_of (got bytes) = bytes
bytes_of failed_read = []
bytes_of asleep_read = []

-- All bytes that go in, all that come out, and the pipe that is left.
unfoldable pub run : List Call → Pipe → List ℕ × List ℕ × Pipe
run [] p = ([], [], p)
run (write killed cs ∷ calls) p =
    let (ws, rs, q) = run calls (pipewrite killed cs p).0 in (accepted cs p ++ ws, rs, q)
run (read killed n ∷ calls) p =
    let (ws, rs, q) = run calls (piperead killed n p).0 in
    (ws, bytes_of (piperead killed n p).1 ++ rs, q)
run (close writable ∷ calls) p = run calls (pipeclose p writable).0

pipeclose-contents :
    (p : Pipe) (writable : Bool)
    → IsPipe p
    → IsPipe (pipeclose p writable).0 × (contents (pipeclose p writable).0 ≡ contents p)
unfolding pipeclose
pipeclose-contents p true w =
    (record { space = w.space; reads = w.reads; writes = w.writes; bounded = w.bounded }, refl)
pipeclose-contents p false w =
    (record { space = w.space; reads = w.reads; writes = w.writes; bounded = w.bounded }, refl)

piperead-queued :
    (killed : Bool) (n : ℕ) (p p' : Pipe) (r : Read)
    → EndsRead killed n p p' r
    → contents p ≡ bytes_of r ++ contents p'
piperead-queued killed n p p' (got bytes) e = e.0
piperead-queued killed n p p' failed_read e = ap contents (sym e.0)
piperead-queued killed n p p' asleep_read e = ap contents (sym e.0)

-- Whatever the two ends do, and in whatever order: the bytes that were in the pipe and those that go
-- in are those that come out and those that are left, in this order.
pub run-contents :
    (calls : List Call) (p : Pipe)
    → IsPipe p
    → let (ws, rs, q) = run calls p in IsPipe q × (contents p ++ ws ≡ rs ++ contents q)
unfolding run
run-contents [] p w = (w, append-nil (contents p))
run-contents (write killed cs ∷ calls) p w =
    let (_, fits, queued) = pipewrite-Ends killed cs p w in
    let (last, same) = run-contents calls (pipewrite killed cs p).0 fits in
    (
      last,
      sym (append_assoc (contents p) (accepted cs p) (run calls (pipewrite killed cs p).0).0)
          ∙ ap (λ xs. xs ++ (run calls (pipewrite killed cs p).0).0) (sym queued)
          ∙ same,
    )
run-contents (read killed n ∷ calls) p w =
    let (ends, fits) = piperead-EndsRead killed n p w in
    let (p', r) = piperead killed n p in
    let (last, same) = run-contents calls (piperead killed n p).0 fits in
    let (ws, rs, q) = run calls (piperead killed n p).0 in
    (
      last,
      ap (λ xs. xs ++ ws) (piperead-queued killed n p p' r ends)
          ∙ append_assoc (bytes_of r) (contents p') ws
          ∙ ap (λ xs. bytes_of r ++ xs) same
          ∙ sym (append_assoc (bytes_of r) rs (contents q)),
    )
run-contents (close writable ∷ calls) p w =
    let (fits, same) = pipeclose-contents p writable w in
    let (last, rest) = run-contents calls (pipeclose p writable).0 fits in
    (last, ap (λ xs. xs ++ (run calls (pipeclose p writable).0).0) (sym same) ∙ rest)
