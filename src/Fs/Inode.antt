-- ===== src/Fs/Inode.antt =====
-- fs.c: inodes, on the disk and in memory, and the blocks that hold a file's content.
pub mod Places
pub mod Mapped
pub mod Bmap
use os_ass.Common.Memory.{Memory, load_word, store_word, load_words, store_words}
use os_ass.Fs.{Fs, Blocks, bsize, ndirect, nindirect, put_block, update}
use os_ass.Fs.Blocks.{balloc, bfree}
use mathlib.Core.Option
use os_ass.Common.{
  ℕ, zero, suc, ◌+◌, ◌-◌, ◌*◌, ◌/◌, ◌%◌, ◌^◌, ◌≤◌, ◌<◌, min, ◌≡◌, refl, sym, ap, ◌∙◌, ◌≢◌, ◌↔◌, ◌⊎◌,
  inl, inr, Bool, true, false, not, ◌&&◌, ◌||◌, Option, none, some, List, [], ◌∷◌, ◌++◌, map, arith,
  ltb, leb, ◌==◌, if◌then◌else◌, Bool-cases, Option-cases, ltb→lt, lt→ltb, ==_iff, ==_refl, length,
  get_elem?, get_or, set, replicate, length-append, length-map, length-set, length-replicate,
  get_elem?-set, get_or-set, get_elem?-lt-length, modify, length-modify, get_elem?-modify,
  get_elem?-append, modify-append, find_from, find_index, IsFirst, find_index-IsFirst,
  find_index-none, Outcome, done, panic, ◌>>=◌, done_inj, some_inj,
}

-- `struct inode`. `valid` is I_VALID of `flags`; `type_of`, `major`, `minor` and `nlink` are halfwords.
-- `addrs` has NDIRECT + 1 entries.
pub record Inode : Type 0 where
  pub dev : ℕ
  pub inum : ℕ
  pub ref : ℕ
  pub valid : Bool
  pub type_of : ℕ
  pub major : ℕ
  pub minor : ℕ
  pub nlink : ℕ
  pub size : ℕ
  pub addrs : List ℕ

-- `T_DIR` and `T_DEV`
abbrev pub t_dir : ℕ
t_dir = 1

abbrev pub t_dev : ℕ
t_dev = 3

-- `IPB`
abbrev pub ipb : ℕ
ipb = 8

-- `IBLOCK(i, sb)`
abbrev pub iblock : Fs → ℕ → ℕ
iblock s i = i / ipb + s.sb.inodestart

-- Where `struct dinode` number `i` starts in its block.
abbrev pub dinode_at : ℕ → ℕ
dinode_at i = i % ipb * 64

abbrev pub load_half : Memory → ℕ → ℕ
load_half m a = m a + 256 * m (a + 1)

abbrev pub store_half : ℕ → ℕ → Memory → Memory
store_half a h m x = if x == a then h % 256 else if x == a + 1 then h / 256 % 256 else m x

-- The fields of `struct dinode`, stored and loaded.
unfoldable pub store_dinode : ℕ → Inode → Memory → Memory
store_dinode a ip m =
    let m₁ = store_half a ip.type_of m in
    let m₂ = store_half (a + 2) ip.major m₁ in
    let m₃ = store_half (a + 4) ip.minor m₂ in
    let m₄ = store_half (a + 6) ip.nlink m₃ in
    store_words (store_word m₄ (a + 8) ip.size) (a + 12) ip.addrs

unfoldable pub load_dinode : ℕ → Memory → Inode → Inode
load_dinode a m ip = record ip {
  type_of = load_half m a;
  major = load_half m (a + 2);
  minor = load_half m (a + 4);
  nlink = load_half m (a + 6);
  size = load_word m (a + 8);
  addrs = load_words m (a + 12) 13;
}

unfoldable pub iupdate : Inode → Fs → Fs
iupdate ip s = update (iblock s ip.inum) (store_dinode (dinode_at ip.inum) ip) s

-- The loop of `ialloc`, up to the call of `iget`; `none` for `panic("ialloc: no inodes")`.
abbrev pub find_dinode : (rounds inum : ℕ) → Fs → Option ℕ
find_dinode zero inum s = none
find_dinode (suc r) inum s =
    let rest = find_dinode r (suc inum) s in
    if load_half (s.blocks (iblock s inum)) (dinode_at inum) == 0 then some inum else rest

abbrev pub new_dinode : (a t : ℕ) → Memory → Memory
new_dinode a t m = store_half a t (λ x. if leb a x && ltb x (a + 64) then 0 else m x)

unfoldable pub ialloc : (t : ℕ) → Fs → Outcome (ℕ × Fs)
ialloc t s = elim (find_dinode (s.sb.ninodes - 1) 1 s) [
  | none ↦ panic "ialloc: no inodes"
  | some inum ↦ done (inum, update (iblock s inum) (new_dinode (dinode_at inum) t) s)
]

abbrev pub addr : Inode → ℕ → ℕ
addr ip k = get_or ip.addrs k 0

abbrev pub set_addr : ℕ → ℕ → Inode → Inode
set_addr k c ip = record ip { addrs = set ip.addrs k c }

-- A block number in the inode itself: a new block is allocated where there is none.
unfoldable pub direct : Fs → Inode → (k : ℕ) → Outcome (ℕ × Inode × Fs)
direct s ip k =
    if addr ip k == 0
    then (balloc s >>= λ p. done (p.0, set_addr k p.0 ip, p.1))
    else done (addr ip k, ip, s)

-- A block number in the indirect block `a`.
unfoldable pub indirect : Fs → Inode → (a k : ℕ) → Outcome (ℕ × Inode × Fs)
indirect s ip a k =
    let w = load_word (s.blocks a) (4 * k) in
    if w == 0
    then (balloc s >>= λ p. done (p.0, ip, update a (λ m. store_word m (4 * k) p.0) p.1))
    else done (w, ip, s)

unfoldable pub bmap : Fs → Inode → (bn : ℕ) → Outcome (ℕ × Inode × Fs)
bmap s ip bn =
    if ltb bn ndirect
    then direct s ip bn
    else if ltb (bn - ndirect) nindirect
    then (direct s ip ndirect >>= λ p. indirect p.2 p.1 p.0 (bn - ndirect))
    else panic "bmap: out of range"

-- The loops of `itrunc` over block numbers; those in the inode are set to 0.
unfoldable pub free_direct : (rounds i : ℕ) → Fs → Inode → Outcome (Inode × Fs)
free_direct zero i s ip = done (ip, s)
free_direct (suc r) i s ip =
    if addr ip i == 0
    then free_direct r (suc i) s ip
    else bfree s (addr ip i) >>= λ s'. free_direct r (suc i) s' (set_addr i 0 ip)

unfoldable pub free_words : (rounds j a : ℕ) → Fs → Outcome Fs
free_words zero j a s = done s
free_words (suc r) j a s =
    if load_word (s.blocks a) (4 * j) == 0
    then free_words r (suc j) a s
    else bfree s (load_word (s.blocks a) (4 * j)) >>= free_words r (suc j) a

unfoldable pub free_indirect : Fs → Inode → Outcome (Inode × Fs)
free_indirect s ip =
    if addr ip ndirect == 0
    then done (ip, s)
    else free_words nindirect 0 (addr ip ndirect) s >>= λ s'.
        bfree s' (addr ip ndirect) >>= λ s''. done (set_addr ndirect 0 ip, s'')

unfoldable pub itrunc : Fs → Inode → Outcome (Inode × Fs)
itrunc s ip = free_direct ndirect 0 s ip >>= λ p. free_indirect p.1 p.0 >>= λ q.
    let ip' = record (q.0) { size = 0 } in done (ip', iupdate ip' q.1)
