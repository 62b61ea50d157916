-- ===== src/Pipe/Queue.antt =====
-- The ring as a queue of bytes, the next one to be read first.
use mathlib.Core.List.{append_assoc, append-nil}
use os_ass.Common.{
  ℕ, zero, suc, ◌+◌, ◌-◌, ◌%◌, ◌^◌, ◌≤◌, ◌<◌, ◌≡◌, refl, sym, ap, ◌∙◌, ◌⊎◌, inl, inr, true, false,
  List, [], ◌∷◌, ◌++◌, arith, ◌==◌, if◌then◌else◌, Bool-cases, ==_refl, length, get_or, set,
  length-set, get_or-set,
}
use os_ass.Pipe.{Pipe, pipe_size, is_full, push, fill, drain}

abbrev pub slice : (k from : ℕ) → List ℕ → List ℕ
slice zero from d = []
slice (suc k) from d = get_or d (from % pipe_size) 0 ∷ slice k ((from + 1) % 2 ^ 32) d

abbrev pub count : Pipe → ℕ
count p = (p.nwrite + 2 ^ 32 - p.nread) % 2 ^ 32

abbrev pub contents : Pipe → List ℕ
contents p = slice (count p) p.nread p.data_of

pub record IsPipe (p : Pipe) : Type 0 where
  pub space : length p.data_of ≡ pipe_size
  pub reads : p.nread < 2 ^ 32
  pub writes : p.nwrite < 2 ^ 32
  pub bounded : count p ≤ pipe_size

slice-set :
    (k e from c : ℕ) (d : List ℕ)
    → length d ≡ pipe_size
    → k + e < pipe_size
    → slice k from (set d ((from + k + e) % pipe_size) c) ≡ slice k from d
slice-set zero e from c d len h = refl
slice-set (suc k) e from c d len h =
    rw (first, same)
      (ap (λ xs. get_or d (from % pipe_size) 0 ∷ xs)
        (slice-set k e ((from + 1) % 2 ^ 32) c d len (omega arith)))
  where
    same : (from + suc k + e) % pipe_size ≡ ((from + 1) % 2 ^ 32 + k + e) % pipe_size
    same = omega arith

    first :
        get_or (set d ((from + suc k + e) % pipe_size) c) (from % pipe_size) 0
        ≡ get_or d (from % pipe_size) 0
    first = ground (arith, get_or-set d ((from + suc k + e) % pipe_size) (from % pipe_size) c 0)

slice-suc :
    (k from : ℕ) (d : List ℕ)
    → slice (suc k) from d ≡ slice k from d ++ get_or d ((from + k) % pipe_size) 0 ∷ []
slice-suc zero from d = rw (plus_zero) refl
  where
    plus_zero : from + 0 ≡ from
    plus_zero = omega arith
slice-suc (suc k) from d =
    ap (λ xs. get_or d (from % pipe_size) 0 ∷ xs)
      (slice-suc k ((from + 1) % 2 ^ 32) d ∙ rw (same) refl)
  where
    same : ((from + 1) % 2 ^ 32 + k) % pipe_size ≡ (from + suc k) % pipe_size
    same = omega arith

count-push :
    (p : Pipe) (c : ℕ)
    → IsPipe p
    → is_full p ≡ false
    → (count (push p c) ≡ suc (count p)) × (count p < pipe_size)
count-push p c w h =
    (ground (arith, w.reads, w.writes, w.bounded), ground (arith, w.reads, w.writes, w.bounded))

push-IsPipe : (p : Pipe) (c : ℕ) → IsPipe p → is_full p ≡ false → IsPipe (push p c)
push-IsPipe p c w h = record {
  space = length-set p.data_of (p.nwrite % pipe_size) c ∙ w.space;
  reads = w.reads;
  writes = omega arith;
  bounded = omega (arith, count-push p c w h);
}

-- A byte is pushed behind those that are there.
contents-push :
    (p : Pipe) (c : ℕ) → IsPipe p → is_full p ≡ false → contents (push p c) ≡ contents p ++ c ∷ []
contents-push p c w h =
    ap (λ k. slice k p.nread d) (count-push p c w h).0
    ∙ slice-suc (count p) p.nread d
    ∙ rw (at, stored)
        (ap (λ xs. xs ++ c ∷ [])
          (rw (sym at') (
            slice-set (count p) 0 p.nread c p.data_of w.space
              (omega (arith, (count-push p c w h).1)))))
  where
    d : List ℕ
    d = set p.data_of (p.nwrite % pipe_size) c

    at : (p.nread + count p) % pipe_size ≡ p.nwrite % pipe_size
    at = omega (arith, w.reads, w.writes, w.bounded)

    at' : (p.nread + count p + 0) % pipe_size ≡ p.nwrite % pipe_size
    at' = omega (arith, w.reads, w.writes, w.bounded)

    stored : get_or (set p.data_of (p.nwrite % pipe_size) c) (p.nwrite % pipe_size) 0 ≡ c
    stored =
        get_or-set p.data_of (p.nwrite % pipe_size) (p.nwrite % pipe_size) c 0
          (omega (arith, w.space))
        ∙ rw (==_refl (p.nwrite % pipe_size)) refl

-- The bytes of a write that go in before the pipe is full.
abbrev pub accepted : List ℕ → Pipe → List ℕ
accepted [] p = []
accepted (c ∷ cs) p = let rest = accepted cs (push p c) in if is_full p then [] else c ∷ rest

-- What filling a pipe does: some of the bytes have gone in, in their order, the rest are left.
pub record Filled (p : Pipe) (cs taken : List ℕ) (p' : Pipe) (rest : List ℕ) : Type 0 where
  pub split : cs ≡ taken ++ rest
  pub queued : contents p' ≡ contents p ++ taken
  pub fits : IsPipe p'
  pub stopped : (rest ≡ []) ⊎ (is_full p' ≡ true)

pub fill-Filled :
    (cs : List ℕ) (p : Pipe) → IsPipe p → Filled p cs (accepted cs p) (fill cs p).0 (fill cs p).1
fill-Filled [] p w = record {
  split = refl;
  queued = sym (append-nil (contents p));
  fits = w;
  stopped = inl refl;
}
fill-Filled (c ∷ cs) p w = elim (Bool-cases (is_full p)) [
  | inl full ↦
      rw full record {
        split = refl;
        queued = sym (append-nil (contents p));
        fits = w;
        stopped = inr full;
      }
  | inr room ↦ rw room (more room (fill-Filled cs (push p c) (push-IsPipe p c w room)))
]
  where
    more :
        is_full p ≡ false
        → Filled
            (push p c)
            cs
            (accepted cs (push p c))
            (fill cs (push p c)).0
            (fill cs (push p c)).1
        → Filled p
            (c ∷ cs)
            (c ∷ accepted cs (push p c))
            (fill cs (push p c)).0
            (fill cs (push p c)).1
    more room f = record {
      split = ap (λ xs. c ∷ xs) f.split;
      queued =
          f.queued
          ∙ rw (contents-push p c w room)
              (append_assoc (contents p) (c ∷ []) (accepted cs (push p c)));
      fits = f.fits;
      stopped = f.stopped;
    }

count-pop :
    (p : Pipe)
    → IsPipe p
    → (p.nread == p.nwrite) ≡ false
    → count p ≡ suc (count (record p { nread = (p.nread + 1) % 2 ^ 32 }))
count-pop p w h = ground (arith, w.reads, w.writes, w.bounded)

-- The loop of `piperead` takes bytes from the front.
pub record Drained (p : Pipe) (n : ℕ) (cs : List ℕ) (p' : Pipe) : Type 0 where
  pub queued : contents p ≡ cs ++ contents p'
  pub within : length cs ≤ n
  pub fits : IsPipe p'
  pub stopped : (length cs ≡ n) ⊎ (contents p' ≡ [])

pub drain-Drained : (n : ℕ) (p : Pipe) → IsPipe p → Drained p n (drain n p).0 (drain n p).1
drain-Drained zero p w = record {
  queued = refl;
  within = omega arith;
  fits = w;
  stopped = inl refl;
}
drain-Drained (suc n) p w = elim (Bool-cases (p.nread == p.nwrite)) [
  | inl empty ↦ rw empty record {
    queued = refl;
    within = omega arith;
    fits = w;
    stopped = inr (rw (none_left empty) refl);
  }
  | inr more ↦ rw more (one more (drain-Drained n popped (popped-IsPipe more)))
]
  where
    popped : Pipe
    popped = record p { nread = (p.nread + 1) % 2 ^ 32 }

    none_left : (p.nread == p.nwrite) ≡ true → count p ≡ 0
    none_left e = ground (arith, w.reads, w.writes)

    popped-IsPipe : (p.nread == p.nwrite) ≡ false → IsPipe popped
    popped-IsPipe more = record {
      space = w.space;
      reads = omega arith;
      writes = w.writes;
      bounded = omega (arith, w.bounded, count-pop p w more);
    }

    one :
        (p.nread == p.nwrite) ≡ false
        → Drained popped n (drain n popped).0 (drain n popped).1
        → Drained p
            (suc n)
            (get_or p.data_of (p.nread % pipe_size) 0 ∷ (drain n popped).0)
            (drain n popped).1
    one more r = record {
      queued =
          rw (count-pop p w more)
            (ap (λ xs. get_or p.data_of (p.nread % pipe_size) 0 ∷ xs) r.queued);
      within = omega (arith, r.within);
      fits = r.fits;
      stopped = elim r.stopped [ inl e ↦ inl (omega arith) | inr e ↦ inr e ];
    }
