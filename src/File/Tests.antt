-- ===== src/File/Tests.antt =====
-- The file table at concrete inputs: a pipe that is held twice, and a free entry.
use os_ass.Common.{
  zero, suc, ◌≡◌, refl, sym, ap, true, false, List, [], ◌∷◌, ◌==◌, if◌then◌else◌, done, some_inj,
}
use os_ass.File.{File, fd_none, fd_pipe, nothing, left_of, fileclose}
use os_ass.File.Holders.{count, Counts, fileclose-Counts}

abbrev pipe_end : File
pipe_end = record {
  type_of = fd_pipe;
  ref = 2;
  readable = true;
  writable = false;
  pipe = 0x8dff0000;
  ip = 0;
  off = 0;
}

abbrev files : List File
files = pipe_end ∷ record pipe_end { type_of = fd_none; ref = 0 } ∷ []

files-Counts : Counts files (0 ∷ 0 ∷ [])
files-Counts zero f e = ap (λ (x : File). x.ref) (sym (some_inj e))
files-Counts (suc zero) f e = ap (λ (x : File). x.ref) (sym (some_inj e))
files-Counts (suc (suc i)) f e = absurd (cc)

fileclose-Counts_example :
    (ts' : List File) × (fileclose files 0
      ≡ done ((if count 0 (0 ∷ []) == 0 then left_of pipe_end else nothing), ts'))
    × Counts ts' (0 ∷ [])
fileclose-Counts_example = fileclose-Counts files (0 ∷ []) 0 pipe_end files-Counts refl
