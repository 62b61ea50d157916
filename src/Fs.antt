-- ===== src/Fs.antt =====
-- fs.c and fs.h: the file system on the blocks of the disk, in layers.
pub mod Blocks
pub mod Inode
pub mod Content
pub mod Path
pub mod Directory
pub mod Table
mod Tests
use mathlib.Core.Option
use os_ass.Common.{
  ℕ, zero, suc, ◌+◌, ◌-◌, ◌*◌, ◌/◌, ◌%◌, ◌^◌, ◌≤◌, ◌<◌, min, ◌≡◌, refl, sym, ap, ◌∙◌, ◌≢◌, ◌↔◌, ◌⊎◌,
  inl, inr, Bool, true, false, not, ◌&&◌, ◌||◌, Option, none, some, List, [], ◌∷◌, ◌++◌, map, arith,
  ltb, leb, ◌==◌, if◌then◌else◌, Bool-cases, Option-cases, ltb→lt, lt→ltb, ==_iff, ==_refl, length,
  get_elem?, get_or, set, replicate, length-append, length-map, length-set, length-replicate,
  get_elem?-set, get_or-set, get_elem?-lt-length, modify, length-modify, get_elem?-modify,
  get_elem?-append, modify-append, find_from, find_index, IsFirst, find_index-IsFirst,
  find_index-none, Outcome, done, panic, ◌>>=◌, done_inj, some_inj,
}
use os_ass.Common.Memory.{Memory, load_word}

-- A block as its bytes, and what the buffers hold for each block number.
abbrev pub Blocks : Type 0
Blocks = ℕ → Memory

abbrev pub bsize : ℕ
bsize = 512

-- `BPB`, the bits of a block
abbrev pub bpb : ℕ
bpb = 4096

abbrev pub ndirect : ℕ
ndirect = 12

abbrev pub nindirect : ℕ
nindirect = 128

-- `MAXFILE`, in blocks
abbrev pub maxfile : ℕ
maxfile = 140

-- `struct superblock`
pub record Superblock : Type 0 where
  pub size : ℕ
  pub nblocks : ℕ
  pub ninodes : ℕ
  pub nlog : ℕ
  pub logstart : ℕ
  pub inodestart : ℕ
  pub bmapstart : ℕ

-- The superblock in memory, the blocks, and the numbers of the blocks given to `log_write`, the latest
-- first.
pub record Fs : Type 0 where
  pub sb : Superblock
  pub blocks : Blocks
  pub logged : List ℕ

abbrev pub put_block : Blocks → ℕ → Memory → Blocks
put_block d b x a = if b == a then x else d a

-- A buffer is read, changed, and given to `log_write`.
abbrev pub update : ℕ → (Memory → Memory) → Fs → Fs
update b f s = record s { blocks = put_block s.blocks b (f (s.blocks b)); logged = b ∷ s.logged }

abbrev pub store_byte_at : ℕ → ℕ → Memory → Memory
store_byte_at i v m x = if i == x then v else m x

unfoldable pub readsb : Blocks → Superblock
readsb d = record {
  size = load_word (d 1) 0;
  nblocks = load_word (d 1) 4;
  ninodes = load_word (d 1) 8;
  nlog = load_word (d 1) 12;
  logstart = load_word (d 1) 16;
  inodestart = load_word (d 1) 20;
  bmapstart = load_word (d 1) 24;
}
