-- ===== src/Pipe/Tests.antt =====
-- The pipe at concrete inputs: a fresh one, and one whose counters are about to wrap around.
use os_ass.Common.{
  ℕ, ◌≡◌, refl, true, false, List, [], ◌∷◌, ◌++◌, arith, replicate, length-replicate,
}
use os_ass.Pipe.{Pipe, pipe_on, pipewrite, got, piperead}
use os_ass.Pipe.Queue.{contents, IsPipe}
use os_ass.Pipe.Fifo.{write, read, run, run-contents}

abbrev blank : List ℕ
blank = replicate 512 0

abbrev fresh : Pipe
fresh = pipe_on blank

abbrev wrapping : Pipe
wrapping = record {
  data_of = blank;
  nread = 0xffffffff;
  nwrite = 0xffffffff;
  readopen = true;
  writeopen = true;
}

fresh-IsPipe : IsPipe fresh
fresh-IsPipe = record {
  space = length-replicate {A = ℕ} 512 0;
  reads = omega arith;
  writes = omega arith;
  bounded = omega arith;
}

wrapping-IsPipe : IsPipe wrapping
wrapping-IsPipe = record {
  space = length-replicate {A = ℕ} 512 0;
  reads = omega arith;
  writes = omega arith;
  bounded = omega arith;
}

run-contents_example :
    let (ws, rs, q) = run (write false (7 ∷ 8 ∷ []) ∷ read false 1 ∷ []) wrapping in
    IsPipe q × (contents wrapping ++ ws ≡ rs ++ contents q)
run-contents_example =
    run-contents (write false (7 ∷ 8 ∷ []) ∷ read false 1 ∷ []) wrapping wrapping-IsPipe

-- Two bytes go in over the wrap-around, and the first comes out.
written_across : (pipewrite false (7 ∷ 8 ∷ []) wrapping).0.nwrite ≡ 1
unfolding pipewrite
written_across = refl

read_back : (piperead false 1 (pipewrite false (7 ∷ 8 ∷ []) wrapping).0).1 ≡ got (7 ∷ [])
unfolding pipewrite piperead
read_back = refl
