-- ===== src/Fs/Inode/Bmap.antt =====
-- `bmap`, whole: every branch finds or makes the block for a position, or there are no blocks left.
use mathlib.Core.Path.{subst}
use os_ass.Common.Memory.{load_word, store_word}
use os_ass.Fs.{Fs, bsize, ndirect, nindirect, maxfile, update}
use os_ass.Fs.Blocks.{balloc}
use os_ass.Fs.Blocks.Bitmap.{used}
use os_ass.Fs.Blocks.Alloc.{Allocated, balloc-Allocated}
use os_ass.Fs.Inode.{Inode, addr, set_addr, direct, indirect, bmap}
use os_ass.Fs.Inode.Places.{place, content, IsFile, Grown, Grown-IsFile, Grown-content}
use os_ass.Fs.Inode.Mapped.{direct-Grown, head-Grown, indirect-Grown}
use os_ass.Common.{
  ℕ, suc, ◌-◌, ◌*◌, ◌≤◌, ◌<◌, ◌≡◌, refl, ap, ◌∙◌, ◌≢◌, ◌⊎◌, inl, inr, true, false, arith, ltb, ◌==◌,
  Bool-cases, ltb→lt, ==_iff, ==_refl, Outcome, done, panic, ◌>>=◌,
}

-- The file's content is as before, and place `i` holds block `a`.
pub record Mapped (s : Fs) (ip : Inode) (i a : ℕ) (s' : Fs) (ip' : Inode) : Type 0 where
  pub fits : IsFile s' ip'
  pub at : place s' ip' i ≡ a
  pub there : a ≢ 0
  pub unchanged : (pos : ℕ) → pos < maxfile * bsize → content s' ip' pos ≡ content s ip pos
  pub rest : record ip' { addrs = ip.addrs } ≡ ip
  pub same : s'.sb ≡ s.sb
  pub more : (j : ℕ) → j ≤ maxfile → place s ip j ≢ 0 → place s' ip' j ≡ place s ip j

Grown-Mapped :
    (s : Fs) (ip : Inode) (i c : ℕ) (s' : Fs) (ip' : Inode)
    → IsFile s ip
    → i ≤ maxfile
    → Grown s ip i c s' ip'
    → Mapped s ip i c s' ip'
Grown-Mapped s ip i c s' ip' w h g = record {
  fits = Grown-IsFile s ip i c s' ip' w g;
  at = g.places i h ∙ rw (==_refl i) refl;
  there = λ e. absurd (cc (subst (λ k. used s k ≡ false) e g.free, w.zero_used));
  unchanged = Grown-content s ip i c s' ip' w g;
  rest = g.rest;
  same = g.same;
  more = λ j p ne. g.places j p ∙ elim (Bool-cases (i == j)) [
    | inl e ↦ absurd (ne (subst (λ k. place s ip k ≡ 0) ((==_iff i j).0 e) g.empty))
    | inr e ↦ rw e refl
  ];
}

there-Mapped :
    (s : Fs) (ip : Inode) (i : ℕ)
    → IsFile s ip
    → place s ip i ≢ 0
    → Mapped s ip i (place s ip i) s ip
there-Mapped s ip i w ne = record {
  fits = w;
  at = refl;
  there = ne;
  unchanged = λ pos h. refl;
  rest = refl;
  same = refl;
  more = λ j p ne. refl;
}

Mapped-trans :
    (s : Fs) (ip : Inode) (i a j b : ℕ) (s₁ s₂ : Fs) (ip₁ ip₂ : Inode)
    → Mapped s ip i a s₁ ip₁
    → Mapped s₁ ip₁ j b s₂ ip₂
    → Mapped s ip j b s₂ ip₂
Mapped-trans s ip i a j b s₁ s₂ ip₁ ip₂ m n = record {
  fits = n.fits;
  at = n.at;
  there = n.there;
  unchanged = λ pos h. n.unchanged pos h ∙ m.unchanged pos h;
  rest = ap (λ (k : Inode). record k { addrs = ip.addrs }) n.rest ∙ m.rest;
  same = n.same ∙ m.same;
  more = λ k p ne. let e = m.more k p ne in n.more k p (rw e ne) ∙ e;
}

-- A call that maps place `i`, or finds no free block.
abbrev pub Maps : Fs → Inode → ℕ → Outcome (ℕ × Inode × Fs) → Type 0
Maps s ip i r =
    ((a : ℕ) × (ip' : Inode) × (s' : Fs) × (r ≡ done (a, ip', s')) × Mapped s ip i a s' ip')
    ⊎ (r ≡ panic "balloc: out of blocks")

-- `balloc` followed by what links the new block.
balloc-Maps :
    (s : Fs) (ip : Inode) (i : ℕ) (link : ℕ × Fs → ℕ × Inode × Fs)
    → IsFile s ip
    → i ≤ maxfile
    → ((p : ℕ × Fs) → (link p).0 ≡ p.0)
    → ((c : ℕ) (s' : Fs) → Allocated s c s' → Grown s ip i c (link (c, s')).2 (link (c, s')).1)
    → Maps s ip i (balloc s >>= λ p. done (link p))
balloc-Maps s ip i link w h first grown = elim (balloc-Allocated s w.reserved) [
  | inl (c, s', e, g) ↦ inl (
    c,
    (link (c, s')).1,
    (link (c, s')).2,
    rw e (ap (λ a. done (a, (link (c, s')).1, (link (c, s')).2)) (first (c, s'))),
    Grown-Mapped s ip i c (link (c, s')).2 (link (c, s')).1 w h (grown c s' g),
  )
  | inr (e, _) ↦ inr (rw e refl)
]

direct-Maps :
    (s : Fs) (ip : Inode) (k : ℕ) → IsFile s ip → k < ndirect → Maps s ip (suc k) (direct s ip k)
unfolding direct
direct-Maps s ip k w h = elim (Bool-cases (addr ip k == 0)) [
  | inl empty ↦
      rw (direct, empty)
        (balloc-Maps s ip (suc k) (λ p. (p.0, set_addr k p.0 ip, p.1)) w (omega arith) (λ p. refl)
          (λ c s' g. direct-Grown s ip c s' w g k h (ground arith)))
  | inr full ↦
      let low : ltb k ndirect ≡ true = ground arith in
      let at : place s ip (suc k) ≡ addr ip k = rw low refl in
      rw (direct, full)
        (inl (
          addr ip k,
          ip,
          s,
          refl,
          subst (λ a. Mapped s ip (suc k) a s ip) at
              (there-Mapped s ip (suc k) w (rw at (ground arith))),
        ))
]

head-Maps : (s : Fs) (ip : Inode) → IsFile s ip → Maps s ip 0 (direct s ip ndirect)
unfolding direct
head-Maps s ip w = elim (Bool-cases (addr ip ndirect == 0)) [
  | inl empty ↦
      rw (direct, empty)
        (balloc-Maps s ip 0 (λ p. (p.0, set_addr ndirect p.0 ip, p.1)) w (omega arith) (λ p. refl)
          (λ c s' g. head-Grown s ip c s' w g (ground arith)))
  | inr full ↦
      rw (direct, full) (inl (addr ip ndirect, ip, s, refl, there-Mapped s ip 0 w (ground arith)))
]

indirect-Maps :
    (s : Fs) (ip : Inode) (bn : ℕ)
    → IsFile s ip
    → ndirect ≤ bn
    → bn < maxfile
    → addr ip ndirect ≢ 0
    → Maps s ip (suc bn) (indirect s ip (addr ip ndirect) (bn - ndirect))
unfolding indirect
indirect-Maps s ip bn w low high some_block =
    elim (Bool-cases (load_word (s.blocks (addr ip ndirect)) (4 * (bn - ndirect)) == 0)) [
      | inl empty ↦
          rw (indirect, empty)
            (balloc-Maps s ip (suc bn)
              (λ p. (
                p.0,
                ip,
                update (addr ip ndirect) (λ m. store_word m (4 * (bn - ndirect)) p.0) p.1,
              ))
              w (omega arith) (λ p. refl)
              (λ c s' g. indirect-Grown s ip c s' w g bn low high some_block (ground arith)))
      | inr full ↦
          rw (indirect, full)
            (inl (
              load_word (s.blocks (addr ip ndirect)) (4 * (bn - ndirect)),
              ip,
              s,
              refl,
              subst (λ a. Mapped s ip (suc bn) a s ip) at
                  (there-Mapped s ip (suc bn) w (rw at (ground arith))),
            ))
    ]
  where
    at : place s ip (suc bn) ≡ load_word (s.blocks (addr ip ndirect)) (4 * (bn - ndirect))
    at =
        let high_bn : ltb bn ndirect ≡ false = ground arith in
        let there : (addr ip ndirect == 0) ≡ false = ground arith in rw (high_bn, there) refl

-- A block number inside the largest file.
pub bmap-Maps :
    (s : Fs) (ip : Inode) (bn : ℕ) → IsFile s ip → bn < maxfile → Maps s ip (suc bn) (bmap s ip bn)
unfolding bmap
bmap-Maps s ip bn w h = elim (Bool-cases (ltb bn ndirect)) [
  | inl low ↦ rw (bmap, low) (direct-Maps s ip bn w (ground arith))
  | inr high ↦
      let inside : ltb (bn - ndirect) nindirect ≡ true = ground arith in
      rw (bmap, high, inside)
        (elim (head-Maps s ip w) [
          | inr e ↦ inr (rw e refl)
          | inl (a, ip₁, s₁, e, m) ↦ rw e (after_head a ip₁ s₁ high m)
        ])
]
  where
    after_head :
        (a : ℕ) (ip₁ : Inode) (s₁ : Fs)
        → ltb bn ndirect ≡ false
        → Mapped s ip 0 a s₁ ip₁
        → Maps s ip (suc bn) (indirect s₁ ip₁ a (bn - ndirect))
    after_head a ip₁ s₁ high m =
        subst (λ k. Maps s ip (suc bn) (indirect s₁ ip₁ k (bn - ndirect))) m.at
          (elim (indirect-Maps s₁ ip₁ bn m.fits (ground arith) h (rw m.at m.there)) [
            | inl (b, ip₂, s₂, e, n) ↦
                inl (b, ip₂, s₂, e, Mapped-trans s ip 0 a (suc bn) b s₁ s₂ ip₁ ip₂ m n)
            | inr e ↦ inr e
          ])

-- What `bmap` answers for block `bn`, inside the largest file and beyond it.
abbrev pub Answers : Fs → Inode → (bn : ℕ) → Type 0
Answers s ip bn =
    ((bn < maxfile) × Maps s ip (suc bn) (bmap s ip bn))
    ⊎ ((maxfile ≤ bn) × (bmap s ip bn ≡ panic "bmap: out of range"))

-- For every block of a well-formed file up to the largest, `bmap` returns the block's number, or panics
-- as no block is free. The file stays well formed, with the same content: a new block reads as zeros,
-- as the hole did. Beyond the largest file it panics.
pub bmap-Answers : (s : Fs) (ip : Inode) (bn : ℕ) → IsFile s ip → Answers s ip bn
unfolding bmap
bmap-Answers s ip bn w = elim (Bool-cases (ltb bn maxfile)) [
  | inl inside ↦ inl (ltb→lt bn maxfile inside, bmap-Maps s ip bn w (ltb→lt bn maxfile inside))
  | inr beyond ↦
      let low : ltb bn ndirect ≡ false = ground arith in
      let high : ltb (bn - ndirect) nindirect ≡ false = ground arith in
      inr (ground arith, rw (bmap, low, high) refl)
]
