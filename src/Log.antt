-- ===== src/Log.antt =====
-- log.c: the log that makes the writes of a file system call reach the disk all together or not at
-- all. The functions below run with the log's lock held, or alone, between `committing` set and
-- cleared. A disk block is written whole or not at all, and `bwrite` returns when it has been.
pub mod Recovery
pub mod Header
pub mod Restart
pub mod Commit
pub mod Write
pub mod Unwritten
pub mod Reserved
pub mod Reserve
mod Tests
pub mod Atomic
use mathlib.Core.Option
use os_ass.Common.{
  ℕ, zero, suc, ◌+◌, ◌-◌, ◌*◌, ◌/◌, ◌%◌, ◌^◌, ◌≤◌, ◌<◌, min, ◌≡◌, refl, sym, ap, ◌∙◌, ◌≢◌, ◌↔◌, ◌⊎◌,
  inl, inr, Bool, true, false, not, ◌&&◌, ◌||◌, Option, none, some, List, [], ◌∷◌, ◌++◌, map, arith,
  ltb, leb, ◌==◌, if◌then◌else◌, Bool-cases, Option-cases, ltb→lt, lt→ltb, ==_iff, ==_refl, length,
  get_elem?, get_or, set, replicate, length-append, length-map, length-set, length-replicate,
  get_elem?-set, get_or-set, get_elem?-lt-length, modify, length-modify, get_elem?-modify,
  get_elem?-append, modify-append, find_from, find_index, IsFirst, find_index-IsFirst,
  find_index-none, Outcome, done, panic, ◌>>=◌, done_inj, some_inj,
}

-- A block, as its words; a disk, as its blocks.
abbrev pub Block : Type 0
Block = ℕ → ℕ

abbrev pub Blocks : Type 0
Blocks = ℕ → Block

abbrev pub put : Blocks → ℕ → Block → Blocks
put d b x a = if b == a then x else d a

-- What `bread` yields for each block, and the disk; with the disks of the past, the latest first, any
-- of which is what a crash at that moment would have left.
pub record Machine : Type 0 where
  pub cache : Blocks
  pub disk : Blocks
  pub past : List Blocks

-- `bwrite` of a buffer that the caller has locked, as `bread` returns it
abbrev pub bwrite : Machine → ℕ → Machine
bwrite m b = record { cache = m.cache; disk = put m.disk b (m.cache b); past = m.disk ∷ m.past }

-- `memmove` from the data of one buffer to that of another
abbrev pub copy : Machine → (dst src : ℕ) → Machine
copy m dst src = record m { cache = put m.cache dst (m.cache src) }

abbrev pub log_size : ℕ
log_size = 30

abbrev pub max_op_blocks : ℕ
max_op_blocks = 10

-- `struct log`, with the `struct logheader` in it; `block` has LOGSIZE entries.
pub record Log : Type 0 where
  pub start : ℕ
  pub size : ℕ
  pub outstanding : ℕ
  pub committing : Bool
  pub n : ℕ
  pub block : List ℕ

-- One log entry after the other, from `tail` on: to the log, and home.
abbrev pub write_log_loop : Log → (rounds tail : ℕ) → Machine → Machine
write_log_loop l zero tail m = m
write_log_loop l (suc r) tail m =
    write_log_loop l r (suc tail)
      (bwrite (copy m (l.start + tail + 1) (get_or l.block tail 0)) (l.start + tail + 1))

unfoldable pub write_log : Log → Machine → Machine
write_log l m = write_log_loop l l.n 0 m

abbrev pub install_loop : Log → (rounds tail : ℕ) → Machine → Machine
install_loop l zero tail m = m
install_loop l (suc r) tail m =
    install_loop l r (suc tail)
      (bwrite (copy m (get_or l.block tail 0) (l.start + tail + 1)) (get_or l.block tail 0))

unfoldable pub install_trans : Log → Machine → Machine
install_trans l m = install_loop l l.n 0 m

-- `for (i = 0; i < log.lh.n; i++) log.lh.block[i] = lh->block[i];`, the header's words from 1 on
abbrev pub read_blocks : (rounds i : ℕ) → Block → List ℕ → List ℕ
read_blocks zero i hd block = block
read_blocks (suc r) i hd block = read_blocks r (suc i) hd (set block i (hd (suc i)))

unfoldable pub read_head : Log → Machine → Log
read_head l m = record l {
  n = m.cache l.start 0;
  block = read_blocks (m.cache l.start 0) 0 (m.cache l.start) l.block;
}

-- The header block: the count and the block numbers are set, and other words stay.
abbrev pub head_block : Log → Block → Block
head_block l hd w = if w == 0 then l.n else if leb w l.n then get_or l.block (w - 1) 0 else hd w

unfoldable pub write_head : Log → Machine → Machine
write_head l m =
    bwrite (record m { cache = put m.cache l.start (head_block l (m.cache l.start)) }) l.start

unfoldable pub recover_from_log : Log → Machine → Log × Machine
recover_from_log l m =
    let l' = read_head l m in
    let l'' = record l' { n = 0 } in (l'', write_head l'' (install_trans l' m))

-- What `initlog` does with the superblock's numbers, on a machine that has just started.
abbrev pub initlog : (logstart nlog : ℕ) → Machine → Log × Machine
initlog logstart nlog m =
    recover_from_log
      (record {
        start = logstart;
        size = nlog;
        outstanding = 0;
        committing = false;
        n = 0;
        block = replicate log_size 0;
      })
      m

unfoldable pub commit : Log → Machine → Log × Machine
commit l m =
    if ltb 0 l.n
    then (let m' = install_trans l (write_head l (write_log l m)) in
        let l' = record l { n = 0 } in (l', write_head l' m'))
    else (l, m)

-- One round of the loop of `begin_op`; `none` if the caller sleeps.
unfoldable pub begin_op : Log → Option Log
begin_op l =
    if l.committing
    then none
    else if ltb log_size (l.n + (l.outstanding + 1) * max_op_blocks)
    then none
    else some (record l { outstanding = l.outstanding + 1 })

-- `end_op`: the last operation commits, while `committing` keeps others out.
unfoldable pub end_op : Log → Machine → Outcome (Log × Machine)
end_op l m =
    let out = (l.outstanding + 2 ^ 32 - 1) % 2 ^ 32 in
    if l.committing
    then panic "log.committing"
    else if out == 0
    then (let (l', m') = commit (record l { outstanding = out; committing = true }) m in
        done (record l' { committing = false }, m'))
    else done (record l { outstanding = out }, m)

-- The loop of `log_write`: the entry that has the block, or the first that is free.
abbrev pub find_entry : (rounds i blockno : ℕ) → List ℕ → ℕ
find_entry zero i b block = i
find_entry (suc r) i b block =
    let rest = find_entry r (suc i) b block in if get_or block i 0 == b then i else rest

-- `dirty` are the buffers with B_DIRTY, which the buffer cache does not give to another block.
unfoldable pub log_write : Log → (dirty : ℕ → Bool) → (blockno : ℕ) → Outcome (Log × (ℕ → Bool))
log_write l dirty b =
    if leb log_size l.n || leb (l.size - 1) l.n
    then panic "too big a transaction"
    else if ltb l.outstanding 1
    then panic "log_write outside of trans"
    else (let i = find_entry l.n 0 b l.block in
        done (
          record l { block = set l.block i b; n = if i == l.n then l.n + 1 else l.n },
          λ a. b == a || dirty a,
        ))
