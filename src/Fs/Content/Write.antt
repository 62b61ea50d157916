-- ===== src/Fs/Content/Write.antt =====
-- `writei`: the bytes go where they belong, and nowhere else.
use mathlib.Core.Path.{subst}
use os_ass.Common.Memory.{Memory, load_word}
use os_ass.Fs.{Fs, bsize, ndirect, maxfile, update}
use os_ass.Fs.Blocks.{bblock}
use os_ass.Fs.Blocks.Bitmap.{used, bit_of}
use os_ass.Fs.Blocks.Alloc.{put_block_same, put_block_other}
use os_ass.Fs.Inode.{Inode, iblock, addr}
use os_ass.Fs.Inode.Places.{place, content, IsFile}
use os_ass.Fs.Inode.Bmap.{Mapped}
use os_ass.Fs.Content.{splice}
use os_ass.Common.{
  ℕ, zero, suc, ◌+◌, ◌-◌, ◌*◌, ◌/◌, ◌%◌, ◌≤◌, ◌<◌, ◌≡◌, refl, sym, ap, ◌∙◌, ◌≢◌, inl, inr, false,
  ◌&&◌, arith, ltb, leb, ◌==◌, if◌then◌else◌, Bool-cases, ==_iff,
}

module _ (n : ℕ) (s : Fs) (ip : Inode) (b : ℕ) (f : Memory → Memory) (w : IsFile s ip)
    (off_map : (j : ℕ) → j < s.sb.size → b ≢ bblock s j)
    (off_head : addr ip ndirect ≢ 0 → b ≢ addr ip ndirect) where
  abbrev sized : Inode
  sized = record ip { size = n }

  used-update : (j : ℕ) → j < s.sb.size → used (update b f s) j ≡ used s j
  used-update j h =
      ap (λ m. bit_of m (j % 4096))
        (put_block_other s.blocks b (bblock s j) _ (λ e. off_map j h (sym e)))

  -- A change of a block that is neither the map's nor the indirect one moves no block, and neither
  -- does a new size.
  pub place-update : (j : ℕ) → place (update b f s) sized j ≡ place s ip j
  place-update zero = refl
  place-update (suc bn) = elim (Bool-cases (ltb bn ndirect)) [
    | inl low ↦ rw low refl
    | inr high ↦ rw high (elim (Bool-cases (addr ip ndirect == 0)) [
      | inl z ↦ rw z refl
      | inr nz ↦ rw nz (
          ap (λ m. load_word m (4 * (bn - 12)))
            (put_block_other s.blocks b (addr ip ndirect) _ (λ e. off_head (ground arith) (sym e))))
    ])
  ]

  pub update-IsFile : IsFile (update b f s) sized
  update-IsFile = record {
    reserved = λ j h.
        ((w.reserved j h).0, used-update (bblock s j) (w.reserved j h).0 ∙ (w.reserved j h).1);
    zero_used = elim (Bool-cases (s.sb.size == 0)) [
      | inl none_at_all ↦
          absurd (omega (arith, w.inode_block.0, (==_iff s.sb.size 0).0 none_at_all))
      | inr some_block ↦ used-update 0 (ground arith) ∙ w.zero_used
    ];
    words = w.words;
    thirteen = w.thirteen;
    held = λ i h ne. rw (place-update i) (
        let old = w.held i h (rw (place-update i) at ne) in
        (old.0, used-update (place s ip i) old.0 ∙ old.1));
    off_map = λ i j h lt ne. rw (place-update i) (w.off_map i j h lt (rw (place-update i) at ne));
    apart = λ i j h h' e ne.
        w.apart i j h h' (rw (place-update i, place-update j) at e) (rw (place-update i) at ne);
    inode_block =
        (w.inode_block.0, used-update (iblock s ip.inum) w.inode_block.0 ∙ w.inode_block.1);
    inode_off_map = w.inode_off_map;
    off_inode = λ i h ne. rw (place-update i) (w.off_inode i h (rw (place-update i) at ne));
  }

  -- Bytes in other blocks stay.
  pub content-update :
      (pos : ℕ)
      → (place s ip (suc (pos / bsize)) ≢ 0 → place s ip (suc (pos / bsize)) ≢ b)
      → content (update b f s) sized pos ≡ content s ip pos
  content-update pos ne =
      rw (place-update (suc (pos / bsize)))
        (elim (Bool-cases (place s ip (suc (pos / bsize)) == 0)) [
          | inl z ↦ rw z refl
          | inr nz ↦ rw nz (
              ap (λ (m : Memory). m (pos % bsize))
                (put_block_other s.blocks b (place s ip (suc (pos / bsize))) _ (ne (ground arith))))
        ])

module _ (s : Fs) (ip : Inode) (src : Memory) (at off m : ℕ) (w : IsFile s ip)
    (here : off < maxfile * bsize) (there : place s ip (suc (off / bsize)) ≢ 0)
    (one : m ≤ bsize - off % bsize) where
  abbrev pub block : ℕ
  block = place s ip (suc (off / bsize))

  abbrev pub chunk_written : Fs
  chunk_written = update block (splice (off % bsize) m src at) s

  off_map : (j : ℕ) → j < s.sb.size → block ≢ bblock s j
  off_map j h = w.off_map (suc (off / bsize)) j (omega arith) h there

  off_head : addr ip ndirect ≢ 0 → block ≢ addr ip ndirect
  off_head ne e =
      absurd (ground (arith, w.apart (suc (off / bsize)) 0 (omega arith) (omega arith) e there))

  pub chunk-IsFile : IsFile chunk_written ip
  chunk-IsFile = update-IsFile ip.size s ip block (splice (off % bsize) m src at) w off_map off_head

  pub chunk-place : (j : ℕ) → place chunk_written ip j ≡ place s ip j
  chunk-place j =
      place-update ip.size s ip block (splice (off % bsize) m src at) w off_map off_head j

  pub chunk-content :
      (pos : ℕ)
      → pos < maxfile * bsize
      → content chunk_written ip pos
        ≡ (if leb off pos && ltb pos (off + m) then src (at + (pos - off)) else content s ip pos)
  chunk-content pos h = elim (Bool-cases (pos / bsize == off / bsize)) [
    | inl e ↦
        let q : pos / bsize ≡ off / bsize = (==_iff (pos / bsize) (off / bsize)).0 e in
        let nz : (block == 0) ≡ false = ground arith in
        rw (q, chunk-place (suc (off / bsize)), nz, put_block_same s.blocks block _) (inside q)
    | inr e ↦
        let out : (leb off pos && ltb pos (off + m)) ≡ false = ground arith in
        rw out (
          content-update ip.size s ip block (splice (off % bsize) m src at) w off_map off_head pos
            (λ _ same. absurd (
              ground (
                arith,
                w.apart (suc (pos / bsize)) (suc (off / bsize)) (omega arith) (omega arith) same
                    (rw same there),
              ))))
  ]
    where
      inside :
          pos / bsize ≡ off / bsize
          → splice (off % bsize) m src at (s.blocks block) (pos % bsize) ≡ (
              if leb off pos && ltb pos (off + m)
              then src (at + (pos - off))
              else s.blocks block (pos % bsize))
      inside q =
          let t : (leb (off % bsize) (pos % bsize) && ltb (pos % bsize) (off % bsize + m))
              ≡ (leb off pos && ltb pos (off + m)) =
            ground arith in
          rw t (elim (Bool-cases (leb off pos && ltb pos (off + m))) [
            | inl y ↦
                rw y (let d : pos % bsize - off % bsize ≡ pos - off = ground arith in rw d refl)
            | inr n ↦ rw n refl
          ])

-- What writing `left` bytes at `off` does to a file.
pub record Wrote (s : Fs) (ip : Inode) (src : Memory) (at off left : ℕ) (s' : Fs) (ip' : Inode)
    : Type 0 where
  pub fits : IsFile s' ip'
  pub rest : record ip' { addrs = ip.addrs } ≡ ip
  pub same : s'.sb ≡ s.sb
  pub bytes :
      (pos : ℕ)
      → pos < maxfile * bsize
      → content s' ip' pos
        ≡ (if leb off pos && ltb pos (off + left) then src (at + (pos - off)) else content s ip pos)
  pub more : (j : ℕ) → j ≤ maxfile → place s ip j ≢ 0 → place s' ip' j ≢ 0
  pub filled : (pos : ℕ) → off ≤ pos → pos < off + left → place s' ip' (suc (pos / bsize)) ≢ 0

pub Wrote-none :
    (s : Fs) (ip : Inode) (src : Memory) (at off left : ℕ)
    → IsFile s ip
    → left ≡ 0
    → Wrote s ip src at off left s ip
Wrote-none s ip src at off left w e = record {
  fits = w;
  rest = refl;
  same = refl;
  bytes = λ pos h. ground arith;
  more = λ j p ne. ne;
  filled = λ pos p q. absurd (omega arith);
}

-- The rest after one block.
pub Wrote-chunk :
    (s : Fs) (ip : Inode) (src : Memory) (at off left m a : ℕ) (s₁ s' : Fs) (ip₁ ip' : Inode)
    → off < maxfile * bsize
    → m ≤ bsize - off % bsize
    → m ≤ left
    → (m₁ : Mapped s ip (suc (off / bsize)) a s₁ ip₁)
    → Wrote
        (update a (splice (off % bsize) m src at) s₁)
        ip₁
        src
        (at + m)
        (off + m)
        (left - m)
        s'
        ip'
    → Wrote s ip src at off left s' ip'
Wrote-chunk s ip src at off left m a s₁ s' ip₁ ip' here one le g w = record {
  fits = w.fits;
  rest = ap (λ (k : Inode). record k { addrs = ip.addrs }) w.rest ∙ g.rest;
  same = w.same ∙ g.same;
  bytes = λ pos h.
      w.bytes pos h
      ∙ ground (arith, λ (q : off + m ≤ pos). ap src (next pos q), first pos h, g.unchanged pos h);
  more = λ j p ne. w.more j p (rw (placed j) (rw (g.more j p ne) ne));
  filled = λ pos p q. elim (Bool-cases (ltb pos (off + m))) [
    | inl now ↦
        let e : pos / bsize ≡ off / bsize = ground arith in
        rw e (w.more (suc (off / bsize)) (omega arith) (rw (placed (suc (off / bsize))) there))
    | inr later ↦ w.filled pos (ground arith) (omega arith)
  ];
}
  where
    there : place s₁ ip₁ (suc (off / bsize)) ≢ 0
    there = rw g.at g.there

    placed : (j : ℕ) → place (update a (splice (off % bsize) m src at) s₁) ip₁ j ≡ place s₁ ip₁ j
    placed j =
        subst (λ b. place (update b (splice (off % bsize) m src at) s₁) ip₁ j ≡ place s₁ ip₁ j) g.at
          (chunk-place s₁ ip₁ src at off m g.fits here there one j)

    first :
        (pos : ℕ)
        → pos < maxfile * bsize
        → content (update a (splice (off % bsize) m src at) s₁) ip₁ pos ≡ (
            if leb off pos && ltb pos (off + m) then src (at + (pos - off)) else content s₁ ip₁ pos)
    first pos h =
        subst
          (λ b. content (update b (splice (off % bsize) m src at) s₁) ip₁ pos ≡ (
            if leb off pos && ltb pos (off + m)
            then src (at + (pos - off))
            else content s₁ ip₁ pos))
          g.at (chunk-content s₁ ip₁ src at off m g.fits here there one pos h)

    next : (pos : ℕ) → off + m ≤ pos → at + m + (pos - (off + m)) ≡ at + (pos - off)
    next pos h = omega arith
