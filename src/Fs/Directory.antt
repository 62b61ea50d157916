-- ===== src/Fs/Directory.antt =====
-- fs.c: directories, files of entries of 16 bytes: the number of an inode and a name.
pub mod Names
pub mod Lookup
use os_ass.Common.Int.{ℤ, pos, negsuc}
use os_ass.Common.Memory.{Memory}
use os_ass.Strings.{strncmp}
use os_ass.Fs.{Fs}
use os_ass.Fs.Path.{dirsiz}
use os_ass.Fs.Inode.{Inode, t_dir, load_half, store_half}
use os_ass.Fs.Table.{iget}
use os_ass.Fs.Content.{Devices, readi, writei}
use mathlib.Core.Option
use os_ass.Common.{
  ℕ, zero, suc, ◌+◌, ◌-◌, ◌*◌, ◌/◌, ◌%◌, ◌^◌, ◌≤◌, ◌<◌, min, ◌≡◌, refl, sym, ap, ◌∙◌, ◌≢◌, ◌↔◌, ◌⊎◌,
  inl, inr, Bool, true, false, not, ◌&&◌, ◌||◌, Option, none, some, List, [], ◌∷◌, ◌++◌, map, arith,
  ltb, leb, ◌==◌, if◌then◌else◌, Bool-cases, Option-cases, ltb→lt, lt→ltb, ==_iff, ==_refl, length,
  get_elem?, get_or, set, replicate, length-append, length-map, length-set, length-replicate,
  get_elem?-set, get_or-set, get_elem?-lt-length, modify, length-modify, get_elem?-modify,
  get_elem?-append, modify-append, find_from, find_index, IsFirst, find_index-IsFirst,
  find_index-none, Outcome, done, panic, ◌>>=◌, done_inj, some_inj,
}

-- `sizeof(struct dirent)`
abbrev pub entry_size : ℕ
entry_size = 16

-- Two buffers of which the first is DIRSIZ bytes long, in one memory.
abbrev pub beside : (s t : Memory) → Memory
beside s t x = if ltb x dirsiz then s x else t (x - dirsiz)

-- `namecmp`, with each name from address 0 on
unfoldable pub namecmp : (s t : Memory) → ℤ
namecmp s t = strncmp (beside s t) 0 dirsiz dirsiz

abbrev pub is_zero : ℤ → Bool
is_zero (pos n) = n == 0
is_zero (negsuc n) = false

-- The buffer `de` that has been read.
abbrev pub entry_of : List ℕ → Memory
entry_of bytes x = get_or bytes x 0

-- Not the `continue`, and the name is the same.
abbrev pub is_named : (name de : Memory) → Bool
is_named name de = not (load_half de 0 == 0) && is_zero (namecmp name (λ x. de (2 + x)))

module _ (devsw : Devices) where
  -- The loop of `dirlookup`: the offset of the entry and its inode number.
  unfoldable pub find_entry :
      (rounds : ℕ)
      → Fs
      → Inode
      → (name : Memory) → (off : ℕ) → Outcome (Option (ℕ × ℕ) × Inode × Fs)
  find_entry zero s dp name off = done (none, dp, s)
  find_entry (suc r) s dp name off =
      if ltb off dp.size
      then (readi devsw s dp off entry_size >>= λ q. elim q.0 [
        | none ↦ panic "dirlink read"
        | some bytes ↦
            if not (length bytes == entry_size)
            then panic "dirlink read"
            else if is_named name (entry_of bytes)
            then done (some (off, load_half (entry_of bytes) 0), q.1, q.2)
            else find_entry r q.2 q.1 name ((off + entry_size) % 2 ^ 32)
      ])
      else done (none, dp, s)

  -- `dirlookup` up to the call of `iget`. A round for each entry and one are enough.
  unfoldable pub find_name : Fs → Inode → (name : Memory) → Outcome (Option (ℕ × ℕ) × Inode × Fs)
  find_name s dp name =
      let found = find_entry (dp.size / entry_size + 1) s dp name 0 in
      if dp.type_of == t_dir then found else panic "dirlookup not DIR"

  -- `return iget(dp->dev, inum);`, with the offset of the entry for `*poff`, or `return 0;`
  abbrev pub get_found :
      List Inode → Option (ℕ × ℕ) × Inode × Fs → Outcome (Option (ℕ × ℕ) × List Inode × Inode × Fs)
  get_found ips (none, dp, s) = done (none, ips, dp, s)
  get_found ips (some (off, inum), dp, s) =
      iget dp.dev inum ips >>= λ r. done (some (off, r.0), r.1, dp, s)

  -- `dirlookup`, with the table of inodes `ips`
  unfoldable pub dirlookup :
      Fs → List Inode → Inode → (name : Memory) → Outcome (Option (ℕ × ℕ) × List Inode × Inode × Fs)
  dirlookup s ips dp name = find_name s dp name >>= get_found ips

  -- The loop of `dirlink`: the offset of the first free entry, or the end.
  unfoldable pub find_free : (rounds : ℕ) → Fs → Inode → (off : ℕ) → Outcome (ℕ × Inode × Fs)
  find_free zero s dp off = done (off, dp, s)
  find_free (suc r) s dp off =
      if ltb off dp.size
      then (readi devsw s dp off entry_size >>= λ q. elim q.0 [
        | none ↦ panic "dirlink read"
        | some bytes ↦
            if not (length bytes == entry_size)
            then panic "dirlink read"
            else if load_half (entry_of bytes) 0 == 0
            then done (off, q.1, q.2)
            else find_free r q.2 q.1 (off + entry_size)
      ])
      else done (off, dp, s)
