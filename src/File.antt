-- ===== src/File.antt =====
-- file.c: the table of open files and their reference counts. `ftable.lock` is held for each change of
-- a count, so a call is one atomic step, up to what `fileclose` still has to do after the last close.
pub mod Holders
mod Tests
use mathlib.Core.Option
use os_ass.Common.{
  ℕ, zero, suc, ◌+◌, ◌-◌, ◌*◌, ◌/◌, ◌%◌, ◌^◌, ◌≤◌, ◌<◌, min, ◌≡◌, refl, sym, ap, ◌∙◌, ◌≢◌, ◌↔◌, ◌⊎◌,
  inl, inr, Bool, true, false, not, ◌&&◌, ◌||◌, Option, none, some, List, [], ◌∷◌, ◌++◌, map, arith,
  ltb, leb, ◌==◌, if◌then◌else◌, Bool-cases, Option-cases, ltb→lt, lt→ltb, ==_iff, ==_refl, length,
  get_elem?, get_or, set, replicate, length-append, length-map, length-set, length-replicate,
  get_elem?-set, get_or-set, get_elem?-lt-length, modify, length-modify, get_elem?-modify,
  get_elem?-append, modify-append, find_from, find_index, IsFirst, find_index-IsFirst,
  find_index-none, Outcome, done, panic, ◌>>=◌, done_inj, some_inj,
}

-- `type` of `struct file`
pub data FileType : Type 0 where
  fd_none fd_pipe fd_inode : FileType

-- `struct file`; `pipe` and `ip` are addresses.
pub record File : Type 0 where
  pub type_of : FileType
  pub ref : ℕ
  pub readable : Bool
  pub writable : Bool
  pub pipe : ℕ
  pub ip : ℕ
  pub off : ℕ

abbrev pub is_unheld : File → Bool
is_unheld f = f.ref == 0

unfoldable pub filealloc : List File → Option ℕ × List File
filealloc ts = elim (find_index is_unheld ts) [
  | none ↦ (none, ts)
  | some i ↦ (some i, modify ts i (λ f. record f { ref = 1 }))
]

abbrev pub hold : File → File
hold f = record f { ref = f.ref + 1 }

-- A pointer past the table is `none` for `get_elem?`, which no caller has.
unfoldable pub filedup : List File → ℕ → Outcome (List File)
filedup ts i = elim (get_elem? ts i) [
  | none ↦ panic "filedup"
  | some f ↦ if ltb f.ref 1 then panic "filedup" else done (modify ts i hold)
]

-- What is left to do once the table is unlocked.
pub data Left : Type 0 where
  nothing : Left
  close_pipe : (pipe : ℕ) → (writable : Bool) → Left
  put_inode : (ip : ℕ) → Left

abbrev pub left_of : File → Left
left_of f = elim f.type_of [
  | fd_none ↦ nothing
  | fd_pipe ↦ close_pipe f.pipe f.writable
  | fd_inode ↦ put_inode f.ip
]

abbrev pub release_last : File → File
release_last f = record f { ref = 0; type_of = fd_none }

abbrev pub release : File → File
release f = record f { ref = f.ref - 1 }

unfoldable pub fileclose : List File → ℕ → Outcome (Left × List File)
fileclose ts i = elim (get_elem? ts i) [
  | none ↦ panic "fileclose"
  | some f ↦
      if ltb f.ref 1
      then panic "fileclose"
      else if ltb 0 (f.ref - 1)
      then done (nothing, modify ts i release)
      else done (left_of f, modify ts i release_last)
]
