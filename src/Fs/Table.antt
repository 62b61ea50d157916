-- ===== src/Fs/Table.antt =====
-- fs.c: the table of inodes in memory, and who holds them.
pub mod Scan
pub mod Holders
pub mod Put
use os_ass.Fs.{Fs}
use os_ass.Fs.Inode.{Inode, iblock, dinode_at, load_dinode, iupdate, itrunc}
use mathlib.Core.Option
use os_ass.Common.{
  ℕ, zero, suc, ◌+◌, ◌-◌, ◌*◌, ◌/◌, ◌%◌, ◌^◌, ◌≤◌, ◌<◌, min, ◌≡◌, refl, sym, ap, ◌∙◌, ◌≢◌, ◌↔◌, ◌⊎◌,
  inl, inr, Bool, true, false, not, ◌&&◌, ◌||◌, Option, none, some, List, [], ◌∷◌, ◌++◌, map, arith,
  ltb, leb, ◌==◌, if◌then◌else◌, Bool-cases, Option-cases, ltb→lt, lt→ltb, ==_iff, ==_refl, length,
  get_elem?, get_or, set, replicate, length-append, length-map, length-set, length-replicate,
  get_elem?-set, get_or-set, get_elem?-lt-length, modify, length-modify, get_elem?-modify,
  get_elem?-append, modify-append, find_from, find_index, IsFirst, find_index-IsFirst,
  find_index-none, Outcome, done, panic, ◌>>=◌, done_inj, some_inj,
}

-- `NINODE`
abbrev pub ninode : ℕ
ninode = 50

-- An entry for this inode, in use.
abbrev pub is_entry : (dev inum : ℕ) → Inode → Bool
is_entry dev inum ip = ltb 0 ip.ref && (ip.dev == dev && ip.inum == inum)

abbrev pub is_free : Inode → Bool
is_free ip = ip.ref == 0

-- The loop of `iget` from entry `i` on: where it returns from, or else what `empty` holds at its end.
unfoldable pub iget_loop : (dev inum i : ℕ) (empty : Option ℕ) → List Inode → Option ℕ × Option ℕ
iget_loop dev inum i empty [] = (none, empty)
iget_loop dev inum i none (ip ∷ ips) =
    let rest = iget_loop dev inum (suc i) (if is_free ip then some i else none) ips in
    if is_entry dev inum ip then (some i, none) else rest
iget_loop dev inum i (some e) (ip ∷ ips) =
    let rest = iget_loop dev inum (suc i) (some e) ips in
    if is_entry dev inum ip then (some i, some e) else rest

abbrev pub hold : Inode → Inode
hold ip = record ip { ref = suc ip.ref }

abbrev pub start : (dev inum : ℕ) → Inode → Inode
start dev inum ip = record ip { dev = dev; inum = inum; ref = 1; valid = false }

abbrev pub iget_end : (dev inum : ℕ) → Option ℕ × Option ℕ → List Inode → Outcome (ℕ × List Inode)
iget_end dev inum (some i, empty) ips = done (i, modify ips i hold)
iget_end dev inum (none, some i) ips = done (i, modify ips i (start dev inum))
iget_end dev inum (none, none) ips = panic "iget: no inodes"

unfoldable pub iget : (dev inum : ℕ) → List Inode → Outcome (ℕ × List Inode)
iget dev inum ips = iget_end dev inum (iget_loop dev inum 0 none ips) ips

unfoldable pub idup : ℕ → List Inode → List Inode
idup i ips = modify ips i hold

-- `icache` and the file system that it stands in front of
pub record State : Type 0 where
  pub fs : Fs
  pub inodes : List Inode

-- `ilock` once the process has the sleep lock. A pointer is an index into the table, and `none` for
-- `get_elem?` is the null pointer.
abbrev pub lock_entry : State → ℕ → Inode → Outcome State
lock_entry s i ip =
    let disk = load_dinode (dinode_at ip.inum) (s.fs.blocks (iblock s.fs ip.inum)) ip in
    let ip' = record disk { valid = true } in
    if ltb ip.ref 1
    then panic "ilock"
    else if ip.valid
    then done s
    else if ip'.type_of == 0
    then panic "ilock: no type"
    else done (record s { inodes = set s.inodes i ip' })

unfoldable pub ilock : State → ℕ → Outcome State
ilock s i = elim (get_elem? s.inodes i) [ none ↦ panic "ilock" | some ip ↦ lock_entry s i ip ]

abbrev pub drop_hold : Inode → Inode
drop_hold ip = record ip { ref = ip.ref - 1 }

-- The condition of `iput`: the last reference, to an inode without links.
abbrev pub is_last : Inode → Bool
is_last ip = ip.ref == 1 && (ip.valid && ip.nlink == 0)

-- `itrunc(ip); ip->type = 0; iupdate(ip);` for entry `i`, without the lock of the table
unfoldable pub free_inode : State → ℕ → Inode → Outcome State
free_inode s i ip = itrunc s.fs ip >>= λ q.
    let ip' = record (q.0) { type_of = 0 } in
    done (record { fs = iupdate ip' q.1; inodes = modify s.inodes i (λ _. ip') })

-- `ip->flags = 0; ip->ref--;` with the lock taken again
abbrev pub forget : Inode → Inode
forget ip = record ip { valid = false; ref = ip.ref - 1 }

-- `iput` of entry `i`. While it frees the inode it does not hold the lock of the table: `between` is what
-- the others have done to the table when it takes the lock again.
unfoldable pub iput : (between : State → State) → State → ℕ → Outcome State
iput between s i = elim (get_elem? s.inodes i) [
  | none ↦ panic "iput"
  | some ip ↦
      if is_last ip
      then (free_inode s i ip >>= λ t.
          let t' = between t in done (record t' { inodes = modify t'.inodes i forget }))
      else done (record s { inodes = modify s.inodes i drop_hold })
]
