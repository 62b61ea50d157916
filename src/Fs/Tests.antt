-- ===== src/Fs/Tests.antt =====
-- The file system at concrete inputs: 1000 blocks, of which the first 64 are in use, and an empty file.
use os_ass.Common.Bits.{bit}
use os_ass.Common.Memory.{Memory, load_word}
use os_ass.Fs.{Fs, Blocks, readsb}
use os_ass.Fs.Blocks.{balloc, bfree}
use os_ass.Fs.Blocks.Bitmap.{used}
use os_ass.Fs.Blocks.Alloc.{IsReserved, Allocated, balloc-Allocated, Freed, bfree-Freed}
use os_ass.Fs.Inode.{Inode}
use os_ass.Fs.Inode.Places.{content, place, IsFile}
use os_ass.Fs.Inode.Bmap.{Answers, bmap-Answers}
use os_ass.Common.{map, modify, get_elem?, ◌∙◌, ◌>>=◌, ◌∷◌, ◌*◌, ◌≢◌}
use os_ass.Fs.Inode.{load_half, iupdate, itrunc, free_direct, free_indirect}
use os_ass.Fs.Path.{dirsiz, take}
use os_ass.Fs.Path.Elements.{names, parts, nonempty, names-parts}
use os_ass.Fs.Directory.{dirlookup}
use os_ass.Fs.Directory.Lookup.{IsDirectory, Entry, NoEntry, dirlookup-First}
use os_ass.Common.{some_inj, sym, ap, List}
use os_ass.Fs.Table.{State, is_last, drop_hold, free_inode, iput, iget}
use os_ass.Fs.Table.Holders.{Held, IsSole, Got, Unavailable, iget-Got}
use os_ass.Fs.Table.Put.{modify-Held, modify-IsSole, iput-Held}
use os_ass.Fs.Content.{Devices, window, readi, writei}
use os_ass.Fs.Content.RoundTrip.{readi-writei, writei-Written, Written}
use os_ass.Common.{
  ℕ, zero, suc, ◌/◌, ◌%◌, ◌<◌, ◌≡◌, refl, ◌⊎◌, inl, inr, true, false, none, some, [], arith, ltb,
  ◌==◌, if◌then◌else◌, Bool-cases, get_or, replicate, done, panic,
}

-- The superblock's words in block 1, and the map in block 58.
abbrev superblock : Memory
superblock x =
    if x == 0
    then 0xE8
    else if x == 1
    then 3
    else if x == 8
    then 200
    else if x == 12
    then 30
    else if x == 16
    then 2
    else if x == 20
    then 32
    else if x == 24
    then 58
    else 0

abbrev disk : Blocks
disk b =
    if b == 1 then superblock else if b == 58 then (λ x. if ltb x 8 then 0xFF else 0) else (λ x. 0)

abbrev fs : Fs
fs = record {
  sb = record {
    size = 1000;
    nblocks = 0;
    ninodes = 200;
    nlog = 30;
    logstart = 2;
    inodestart = 32;
    bmapstart = 58;
  };
  blocks = disk;
  logged = [];
}

fs-IsReserved : IsReserved fs
unfolding bit
fs-IsReserved j h = let e : j / 4096 ≡ 0 = omega arith in rw e (omega arith, refl)

balloc-Allocated_example :
    ((c : ℕ) × (s' : Fs) × (balloc fs ≡ done (c, s')) × Allocated fs c s')
    ⊎ ((balloc fs ≡ panic "balloc: out of blocks") × ((j : ℕ) → j < 1000 → used fs j ≡ true))
balloc-Allocated_example = balloc-Allocated fs fs-IsReserved

bfree-Freed_example :
    ((s' : Fs) × (used fs 20 ≡ true) × (bfree fs 20 ≡ done s') × Freed fs 20 s')
    ⊎ ((used fs 20 ≡ false) × (bfree fs 20 ≡ panic "freeing free block"))
unfolding readsb load_word
bfree-Freed_example = bfree-Freed fs 20 refl

abbrev file : Inode
file = record {
  dev = 1;
  inum = 5;
  ref = 1;
  valid = true;
  type_of = 2;
  major = 0;
  minor = 0;
  nlink = 1;
  size = 0;
  addrs = replicate 13 0;
}

get_or-zeros : (n k : ℕ) → ◌≡◌ {A = ℕ} (get_or (replicate n 0) k 0) 0
get_or-zeros zero k = refl
get_or-zeros (suc n) zero = refl
get_or-zeros (suc n) (suc k) = get_or-zeros n k

place-file : (i : ℕ) → place fs file i ≡ 0
place-file zero = refl
place-file (suc bn) = elim (Bool-cases (ltb bn 12)) [
  | inl low ↦ rw low (get_or-zeros 13 bn)
  | inr high ↦ rw high refl
]

file-IsFile : IsFile fs file
unfolding bit
file-IsFile = record {
  reserved = fs-IsReserved;
  zero_used = refl;
  words = omega arith;
  thirteen = refl;
  held = λ i h ne. absurd (ne (place-file i));
  off_map = λ i j h lt ne. absurd (ne (place-file i));
  apart = λ i j h h' e ne. absurd (ne (place-file i));
  inode_block = (omega arith, refl);
  inode_off_map = λ j h e. absurd (omega arith);
  off_inode = λ i h ne. absurd (ne (place-file i));
}

bmap-Answers_example : Answers fs file 17
bmap-Answers_example = bmap-Answers fs file 17 file-IsFile

-- The bytes that a program writes.
abbrev bytes : Memory
bytes x = x % 256

abbrev no_devices : Devices
no_devices = record { read = λ n. none; write = λ n. none }

writei-Written_example :
    ((ip' : Inode) × (s' : Fs) × (writei no_devices fs file bytes 70 0 700
        ≡ done (some 700, ip', s'))
      × Written fs file bytes 70 0 700 s' ip')
    ⊎ (writei no_devices fs file bytes 70 0 700 ≡ panic "balloc: out of blocks")
writei-Written_example =
    writei-Written fs file bytes 70 0 700 (omega arith) (omega arith) (omega arith)
      (λ bn h. absurd (omega arith)) no_devices file-IsFile (omega arith)

readi-writei_example :
    ((ip' : Inode) × (s' : Fs) × (writei no_devices fs file bytes 70 0 700
        ≡ done (some 700, ip', s'))
      × (readi no_devices s' ip' 0 700 ≡ done (some (window bytes 70 700), ip', s')))
    ⊎ (writei no_devices fs file bytes 70 0 700 ≡ panic "balloc: out of blocks")
readi-writei_example =
    readi-writei fs file bytes 70 0 700 (omega arith) (omega arith) (omega arith)
      (λ bn h. absurd (omega arith)) no_devices file-IsFile (omega arith)

-- A directory with an entry that is free and one for "ls".
abbrev entries : Memory
entries x = if x == 16 then 7 else if x == 18 then 0x6C else if x == 19 then 0x73 else 0

abbrev ls : Memory
ls x = if x == 0 then 0x6C else if x == 1 then 0x73 else 0

abbrev dir_fs : Fs
dir_fs = record fs { blocks = λ b. if b == 70 then entries else disk b }

abbrev dir : Inode
dir = record file { type_of = 1; size = 32; addrs = 70 ∷ replicate 12 0 }

dir-IsDirectory : IsDirectory dir_fs dir
dir-IsDirectory = record { dense = dense; fits = omega arith; whole = refl; kind = refl }
  where
    dense : (bn : ℕ) → bn * 512 < 32 → place dir_fs dir (suc bn) ≢ 0
    dense zero h = λ e. absurd (omega (arith, e))
    dense (suc bn) h = absurd (omega arith)

-- "//a/./b"
names-parts_example :
    names 8 (0x2F ∷ 0x2F ∷ 0x61 ∷ 0x2F ∷ 0x2E ∷ 0x2F ∷ 0x62 ∷ [])
    ≡ map (take dirsiz) (nonempty (parts (0x2F ∷ 0x2F ∷ 0x61 ∷ 0x2F ∷ 0x2E ∷ 0x2F ∷ 0x62 ∷ [])))
names-parts_example =
    names-parts 8 (0x2F ∷ 0x2F ∷ 0x61 ∷ 0x2F ∷ 0x2E ∷ 0x2F ∷ 0x62 ∷ []) (omega arith)

-- Entry 0 is held twice, entry 1 is free.
abbrev inodes : List Inode
inodes = record file { ref = 2 } ∷ record file { ref = 0; inum = 9 } ∷ []

abbrev holders : List ℕ
holders = 0 ∷ 0 ∷ []

inodes-Held : Held inodes holders
inodes-Held zero ip e = sym (ap (λ (q : Inode). q.ref) (some_inj e))
inodes-Held (suc zero) ip e = sym (ap (λ (q : Inode). q.ref) (some_inj e))
inodes-Held (suc (suc i)) ip e = absurd (ground arith)

inodes-IsSole : IsSole inodes
inodes-IsSole zero zero x y e e' p p' d n = refl
inodes-IsSole zero (suc zero) x y e e' p p' d n =
    absurd (omega (arith, p', ap (λ (q : Inode). q.ref) (some_inj e')))
inodes-IsSole zero (suc (suc j)) x y e e' p p' d n = absurd (ground (arith, e'))
inodes-IsSole (suc zero) j x y e e' p p' d n =
    absurd (omega (arith, p, ap (λ (q : Inode). q.ref) (some_inj e)))
inodes-IsSole (suc (suc i)) j x y e e' p p' d n = absurd (ground (arith, e))

dirlookup-First_example :
    ((j : ℕ) × (dirlookup no_devices dir_fs inodes dir ls ≡ (
        iget dir.dev (load_half (content dir_fs dir) (16 * j)) inodes >>= λ r.
        done (some (16 * j, r.0), r.1, dir, dir_fs)))
      × Entry no_devices dir_fs dir ls dir-IsDirectory j)
    ⊎ ((dirlookup no_devices dir_fs inodes dir ls ≡ done (none, inodes, dir, dir_fs))
        × NoEntry no_devices dir_fs dir ls dir-IsDirectory)
dirlookup-First_example = dirlookup-First no_devices dir_fs dir ls dir-IsDirectory inodes

iget-Got_example : Got 1 8 inodes holders ⊎ Unavailable 1 8 inodes
iget-Got_example = iget-Got 1 8 inodes holders inodes-Held inodes-IsSole

-- An inode without links and content that one process holds, and another process that puts entry 1
-- while it is freed.
abbrev unlinked : Inode
unlinked = record file { ref = 1; nlink = 0; valid = true; addrs = replicate 13 0 }

abbrev before_put : State
before_put = record { fs = fs; inodes = unlinked ∷ record file { ref = 1; inum = 9 } ∷ [] }

abbrev put_other : State → State
put_other s = record s { inodes = modify s.inodes 1 drop_hold }

abbrev emptied : Inode
emptied = record unlinked { size = 0 }

abbrev after_put : State
after_put = record {
  fs = iupdate (record emptied { type_of = 0 }) (iupdate emptied fs);
  inodes =
      record emptied { type_of = 0; valid = false; ref = 0 }
      ∷ record file { ref = 0; inum = 9 }
      ∷ [];
}

before_put-Held : Held before_put.inodes (0 ∷ 1 ∷ [])
before_put-Held zero ip e = sym (ap (λ (q : Inode). q.ref) (some_inj e))
before_put-Held (suc zero) ip e = sym (ap (λ (q : Inode). q.ref) (some_inj e))
before_put-Held (suc (suc i)) ip e = absurd (ground arith)

before_put-IsSole : IsSole before_put.inodes
before_put-IsSole zero zero x y e e' p p' d n = refl
before_put-IsSole zero (suc zero) x y e e' p p' d n = absurd (
    omega
      (arith, n, ap (λ (q : Inode). q.inum) (some_inj e), ap (λ (q : Inode). q.inum) (some_inj e')))
before_put-IsSole zero (suc (suc j)) x y e e' p p' d n = absurd (ground (arith, e'))
before_put-IsSole (suc zero) zero x y e e' p p' d n = absurd (
    omega
      (arith, n, ap (λ (q : Inode). q.inum) (some_inj e), ap (λ (q : Inode). q.inum) (some_inj e')))
before_put-IsSole (suc zero) (suc zero) x y e e' p p' d n = refl
before_put-IsSole (suc zero) (suc (suc j)) x y e e' p p' d n = absurd (ground (arith, e'))
before_put-IsSole (suc (suc i)) j x y e e' p p' d n = absurd (ground (arith, e))

put_other_keeps :
    (t : State)
    → Held t.inodes (0 ∷ 1 ∷ [])
    → IsSole t.inodes
    → Held (put_other t).inodes (0 ∷ []) × IsSole (put_other t).inodes
put_other_keeps t c u = (
  modify-Held t.inodes (0 ∷ []) 1 drop_hold (λ x. refl) (λ j g at. c j g at ∙ grind arith),
  modify-IsSole t.inodes 1 drop_hold (λ x was p. (omega arith, refl, refl)) u,
)

iput-Held_example :
    (ip : Inode) × (get_elem? before_put.inodes 0 ≡ some ip)
    × (((is_last ip ≡ false) × Held after_put.inodes (1 ∷ []))
        ⊎ ((is_last ip ≡ true) × Held after_put.inodes []))
    × IsSole after_put.inodes
unfolding iput free_inode itrunc free_direct free_indirect
iput-Held_example =
    iput-Held put_other before_put 0 (1 ∷ []) [] after_put before_put-Held before_put-IsSole
      put_other_keeps refl
