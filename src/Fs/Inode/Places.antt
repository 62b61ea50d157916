-- ===== src/Fs/Inode/Places.antt =====
-- The block numbers that an inode holds, and what becomes of a file's content when `bmap` adds one.
use mathlib.Core.Path.{subst}
use os_ass.Common.Memory.{Memory, load_word}
use os_ass.Fs.{Fs, bsize, ndirect, maxfile}
use os_ass.Fs.Blocks.{bblock}
use os_ass.Fs.Blocks.Bitmap.{used}
use os_ass.Fs.Blocks.Alloc.{IsReserved}
use os_ass.Fs.Inode.{Inode, iblock, addr}
use os_ass.Common.{
  ℕ, zero, suc, ◌+◌, ◌-◌, ◌*◌, ◌/◌, ◌%◌, ◌^◌, ◌≤◌, ◌<◌, ◌≡◌, refl, sym, ap, ◌∙◌, ◌≢◌, inl, inr,
  true, false, arith, ltb, ◌==◌, if◌then◌else◌, Bool-cases, ==_iff, ==_refl, length,
}

-- The word for block `bn` of a file in its indirect block, 0 where there is no such block.
abbrev pub indirect_word : Fs → Inode → ℕ → ℕ
indirect_word s ip bn =
    if addr ip ndirect == 0 then 0 else load_word (s.blocks (addr ip ndirect)) (4 * (bn - ndirect))

-- Place 0 is the indirect block's, place `suc bn` is for block `bn` of the file; 0 means none.
abbrev pub place : Fs → Inode → ℕ → ℕ
place s ip zero = addr ip ndirect
place s ip (suc bn) = if ltb bn ndirect then addr ip bn else indirect_word s ip bn

-- The byte at a position of a file; where there is no block, it is 0.
abbrev pub content : Fs → Inode → ℕ → ℕ
content s ip pos =
    let a = place s ip (suc (pos / bsize)) in if a == 0 then 0 else s.blocks a (pos % bsize)

-- The blocks of a file are in use, and each has one place; they are neither the map's nor the one that
-- holds the inode.
pub record IsFile (s : Fs) (ip : Inode) : Type 0 where
  pub reserved : IsReserved s
  pub zero_used : used s 0 ≡ true
  pub words : s.sb.size ≤ 2 ^ 32
  pub thirteen : length ip.addrs ≡ 13
  pub held :
      (i : ℕ)
      → i ≤ maxfile
      → place s ip i ≢ 0
      → (place s ip i < s.sb.size) × (used s (place s ip i) ≡ true)
  pub off_map :
      (i j : ℕ) → i ≤ maxfile → j < s.sb.size → place s ip i ≢ 0 → place s ip i ≢ bblock s j
  pub apart :
      (i j : ℕ) → i ≤ maxfile → j ≤ maxfile → place s ip i ≡ place s ip j → place s ip i ≢ 0 → i ≡ j
  pub inode_block : (iblock s ip.inum < s.sb.size) × (used s (iblock s ip.inum) ≡ true)
  pub inode_off_map : (j : ℕ) → j < s.sb.size → iblock s ip.inum ≢ bblock s j
  pub off_inode : (i : ℕ) → i ≤ maxfile → place s ip i ≢ 0 → place s ip i ≢ iblock s ip.inum

-- Place `i`, which had no block, has got block `c`.
pub record Grown (s : Fs) (ip : Inode) (i c : ℕ) (s' : Fs) (ip' : Inode) : Type 0 where
  pub empty : place s ip i ≡ 0
  pub inside : c < s.sb.size
  pub free : used s c ≡ false
  pub now : (j : ℕ) → j < s.sb.size → used s' j ≡ (if c == j then true else used s j)
  pub zeroed : (x : ℕ) → x < 512 → (i ≢ 0) → s'.blocks c x ≡ 0
  pub places : (j : ℕ) → j ≤ maxfile → place s' ip' j ≡ (if i == j then c else place s ip j)
  pub kept :
      (j : ℕ)
      → j < maxfile
      → place s ip (suc j) ≢ 0
      → s'.blocks (place s ip (suc j)) ≡ s.blocks (place s ip (suc j))
  pub same : s'.sb ≡ s.sb
  pub thirteen : length ip'.addrs ≡ 13
  pub rest : record ip' { addrs = ip.addrs } ≡ ip

module _ (s : Fs) (ip : Inode) (i c : ℕ) (s' : Fs) (ip' : Inode) (w : IsFile s ip)
    (g : Grown s ip i c s' ip') where
  bblock_same : (j : ℕ) → bblock s' j ≡ bblock s j
  bblock_same j = ap (λ b. j / 4096 + b.bmapstart) g.same

  used_more : (j : ℕ) → j < s.sb.size → used s j ≡ true → used s' j ≡ true
  used_more j h u = g.now j h ∙ ground arith

  not_zero : c ≢ 0
  not_zero e = absurd (cc (subst (λ k. used s k ≡ false) e g.free, w.zero_used))

  new_not_old : (j : ℕ) → j ≤ maxfile → place s ip j ≢ 0 → place s ip j ≢ c
  new_not_old j h ne e = absurd (cc (subst (λ k. used s k ≡ true) e (w.held j h ne).1, g.free))

  size_same : s'.sb.size ≡ s.sb.size
  size_same = ap (λ b. b.size) g.same

  at_new : (j : ℕ) → j ≤ maxfile → (i == j) ≡ true → place s' ip' j ≡ c
  at_new j h e = g.places j h ∙ rw e refl

  at_old : (j : ℕ) → j ≤ maxfile → (i == j) ≡ false → place s' ip' j ≡ place s ip j
  at_old j h e = g.places j h ∙ rw e refl

  in_use : (x : ℕ) → x < s.sb.size → used s x ≡ true → used s' x ≡ true
  in_use x h u = used_more x h u

  c_in_use : used s' c ≡ true
  c_in_use = g.now c g.inside ∙ rw (==_refl c) refl

  c_off_map : (j : ℕ) → j < s.sb.size → c ≢ bblock s j
  c_off_map j h e = absurd (cc (subst (λ k. used s k ≡ false) e g.free, (w.reserved j h).1))

  iblock_same : iblock s' ip'.inum ≡ iblock s ip.inum
  iblock_same =
      ap (λ b. ip'.inum / 8 + b.inodestart) g.same
      ∙ ap (λ (k : Inode). k.inum / 8 + s.sb.inodestart) g.rest

  c_off_inode : c ≢ iblock s ip.inum
  c_off_inode e = absurd (cc (subst (λ k. used s k ≡ false) e g.free, w.inode_block.1))

  pub Grown-IsFile : IsFile s' ip'
  Grown-IsFile = record {
    reserved = λ j h.
        let h' : j < s.sb.size = omega (arith, size_same) in
        rw (bblock_same j, size_same)
          ((w.reserved j h').0, used_more (bblock s j) (w.reserved j h').0 (w.reserved j h').1);
    zero_used = used_more 0 (omega (arith, g.inside)) w.zero_used;
    words = rw (size_same) w.words;
    thirteen = g.thirteen;
    held = λ j h ne. elim (Bool-cases (i == j)) [
      | inl e ↦ rw (at_new j h e, size_same) (g.inside, c_in_use)
      | inr e ↦
          let old = w.held j h (rw (at_old j h e) at ne) in
          rw (at_old j h e, size_same) (old.0, used_more (place s ip j) old.0 old.1)
    ];
    off_map = λ j k h lt ne.
        let lt' : k < s.sb.size = omega (arith, size_same) in
        rw (bblock_same k) (elim (Bool-cases (i == j)) [
          | inl e ↦ rw (at_new j h e) (c_off_map k lt')
          | inr e ↦ rw (at_old j h e) (w.off_map j k h lt' (rw (at_old j h e) at ne))
        ]);
    apart = λ j k h h' same ne. elim (Bool-cases (i == j)) [
      | inl e ↦ elim (Bool-cases (i == k)) [
        | inl f ↦ sym ((==_iff i j).0 e) ∙ (==_iff i k).0 f
        | inr f ↦ absurd (
            new_not_old k h' (rw (same ∙ at_old k h' f) at ne)
              (sym (rw (at_new j h e, at_old k h' f) at same)))
      ]
      | inr e ↦ elim (Bool-cases (i == k)) [
        | inl f ↦
            absurd
              (new_not_old j h (rw (at_old j h e) at ne) (rw (at_old j h e, at_new k h' f) at same))
        | inr f ↦
            w.apart j k h h' (rw (at_old j h e, at_old k h' f) at same) (rw (at_old j h e) at ne)
      ]
    ];
    inode_block =
        rw (iblock_same, size_same)
          (w.inode_block.0, used_more (iblock s ip.inum) w.inode_block.0 w.inode_block.1);
    inode_off_map =
        λ j h. rw (iblock_same, bblock_same j) (w.inode_off_map j (omega (arith, size_same)));
    off_inode = λ j h ne. rw iblock_same (elim (Bool-cases (i == j)) [
      | inl e ↦ rw (at_new j h e) c_off_inode
      | inr e ↦ rw (at_old j h e) (w.off_inode j h (rw (at_old j h e) at ne))
    ]);
  }

  -- A new block reads as the hole that it fills.
  pub Grown-content : (pos : ℕ) → pos < maxfile * bsize → content s' ip' pos ≡ content s ip pos
  Grown-content pos h = elim (Bool-cases (i == suc (pos / bsize))) [
    | inl e ↦
        let gone : place s ip (suc (pos / bsize)) ≡ 0 =
          subst (λ k. place s ip k ≡ 0) ((==_iff i (suc (pos / bsize))).0 e) g.empty in
        rw (at_new (suc (pos / bsize)) (omega arith) e, gone)
          (ground (arith, g.zeroed (pos % bsize) (omega arith) (ground arith)))
    | inr e ↦
        rw (at_old (suc (pos / bsize)) (omega arith) e)
          (elim (Bool-cases (place s ip (suc (pos / bsize)) == 0)) [
            | inl hole ↦ rw hole refl
            | inr there ↦ rw there (
                ap (λ (m : Memory). m (pos % bsize))
                  (g.kept (pos / bsize) (omega arith) (ground arith)))
          ])
  ]
