-- ===== src/Fs/Inode/Mapped.antt =====
-- `bmap`: the block for a position of a file, allocated where there is none.
use mathlib.Core.Path.{subst}
use os_ass.Common.Memory.{
  Memory, load_word, store_word, load_word-store_word, load_word-AgreeOn, store_word-outside,
}
use os_ass.Fs.{Fs, ndirect, maxfile, update}
use os_ass.Fs.Blocks.{bblock}
use os_ass.Fs.Blocks.Bitmap.{used, bit_of}
use os_ass.Fs.Blocks.Alloc.{Allocated, put_block_same, put_block_other}
use os_ass.Fs.Inode.{Inode, addr, set_addr}
use os_ass.Fs.Inode.Places.{indirect_word, place, IsFile, Grown}
use os_ass.Common.{
  ℕ, zero, suc, ◌+◌, ◌-◌, ◌*◌, ◌/◌, ◌%◌, ◌≤◌, ◌<◌, ◌≡◌, refl, sym, ap, ◌∙◌, ◌≢◌, ◌⊎◌, inl, inr,
  true, false, arith, ltb, ◌==◌, if◌then◌else◌, Bool-cases, ==_iff, length-set, get_or-set,
}

load_word-zeros :
    (m : Memory) (a : ℕ) → a + 3 < 512 → ((x : ℕ) → x < 512 → m x ≡ 0) → load_word m a ≡ 0
unfolding load_word
load_word-zeros m a h z = omega (
  arith,
  z a (omega arith),
  z (a + 1) (omega arith),
  z (a + 2) (omega arith),
  z (a + 3) (omega arith),
)

module _ (s : Fs) (ip : Inode) (c : ℕ) (s' : Fs) (w : IsFile s ip) (g : Allocated s c s') where
  spared :
      (j : ℕ) → j ≤ maxfile → place s ip j ≢ 0 → s'.blocks (place s ip j) ≡ s.blocks (place s ip j)
  spared j h ne =
      g.others (place s ip j)
        (λ e. absurd (cc (subst (λ k. used s k ≡ true) e (w.held j h ne).1, g.free)))
        (w.off_map j c h g.inside ne)

  word_kept :
      (ip' : Inode) (bn : ℕ)
      → addr ip' ndirect ≡ addr ip ndirect
      → indirect_word s' ip' bn ≡ indirect_word s ip bn
  word_kept ip' bn e = rw e (elim (Bool-cases (addr ip ndirect == 0)) [
    | inl z ↦ rw z refl
    | inr nz ↦ rw nz (ap (λ m. load_word m (4 * (bn - 12))) (spared 0 (omega arith) (ground arith)))
  ])

  -- A block number set in the inode.
  pub direct-Grown :
      (k : ℕ) → k < ndirect → addr ip k ≡ 0 → Grown s ip (suc k) c s' (set_addr k c ip)
  direct-Grown k h empty = record {
    empty = let inside : ltb k ndirect ≡ true = ground arith in rw inside empty;
    inside = g.inside;
    free = g.free;
    now = g.now;
    zeroed = λ x p ne. g.zeroed x p;
    places = λ j p. at_any j;
    kept = λ j p ne. spared (suc j) (omega arith) ne;
    same = g.same;
    thirteen = length-set ip.addrs k c ∙ w.thirteen;
    rest = refl;
  }
    where
      other_addr : (j : ℕ) → k ≢ j → addr (set_addr k c ip) j ≡ addr ip j
      other_addr j ne = ground (arith, get_or-set ip.addrs k j c 0, w.thirteen)

      at_place :
          (bn : ℕ)
          → place s' (set_addr k c ip) (suc bn)
            ≡ (if suc k == suc bn then c else place s ip (suc bn))
      at_place bn = elim (Bool-cases (ltb bn ndirect)) [
        | inl low ↦ rw low (ground (arith, get_or-set ip.addrs k bn c 0, w.thirteen))
        | inr high ↦
            let ne : (suc k == suc bn) ≡ false = ground arith in
            rw (high, ne) (word_kept (set_addr k c ip) bn (other_addr ndirect (omega arith)))
      ]

      at_any : (j : ℕ) → place s' (set_addr k c ip) j ≡ (if suc k == j then c else place s ip j)
      at_any zero = other_addr ndirect (omega arith) ∙ ground arith
      at_any (suc bn) = at_place bn

  -- An indirect block, with no block number in it.
  pub head-Grown : addr ip ndirect ≡ 0 → Grown s ip 0 c s' (set_addr ndirect c ip)
  head-Grown empty = record {
    empty = empty;
    inside = g.inside;
    free = g.free;
    now = g.now;
    zeroed = λ x p ne. g.zeroed x p;
    places = at_any;
    kept = λ j p ne. spared (suc j) (omega arith) ne;
    same = g.same;
    thirteen = length-set ip.addrs ndirect c ∙ w.thirteen;
    rest = refl;
  }
    where
      here : addr (set_addr ndirect c ip) ndirect ≡ c
      here = ground (arith, get_or-set ip.addrs ndirect ndirect c 0, w.thirteen)

      at_place :
          (bn : ℕ)
          → suc bn ≤ maxfile
          → place s' (set_addr ndirect c ip) (suc bn)
            ≡ (if 0 == suc bn then c else place s ip (suc bn))
      at_place bn p =
          let ne : (0 == suc bn) ≡ false = ground arith in
          rw ne (elim (Bool-cases (ltb bn ndirect)) [
            | inl low ↦ rw low (ground (arith, get_or-set ip.addrs ndirect bn c 0, w.thirteen))
            | inr high ↦ rw high (
                rw empty (elim (Bool-cases (addr (set_addr ndirect c ip) ndirect == 0)) [
                  | inl z ↦ rw z refl
                  | inr nz ↦
                      rw (nz, here)
                        (load_word-zeros (s'.blocks c) (4 * (bn - 12)) (omega arith) g.zeroed)
                ]))
          ])

      at_any :
          (j : ℕ)
          → j ≤ maxfile
          → place s' (set_addr ndirect c ip) j ≡ (if 0 == j then c else place s ip j)
      at_any zero p = here
      at_any (suc bn) p = at_place bn p

load_word-store_word_other :
    (m : Memory) (i j c : ℕ)
    → i ≢ j
    → load_word (store_word m (4 * i) c) (4 * j) ≡ load_word m (4 * j)
load_word-store_word_other m i j c ne =
    load_word-AgreeOn m (store_word m (4 * i) c) (4 * j)
      (λ x p q. store_word-outside m (4 * i) c x (outside x p q (Bool-cases (ltb x (4 * i)))))
  where
    outside :
        (x : ℕ)
        → 4 * j ≤ x
        → x < 4 * j + 4
        → (ltb x (4 * i) ≡ true) ⊎ (ltb x (4 * i) ≡ false)
        → (x < 4 * i) ⊎ (4 * i + 4 ≤ x)
    outside x p q (inl lt) = inl (ground arith)
    outside x p q (inr ge) = inr (ground arith)

module _ (s : Fs) (ip : Inode) (c : ℕ) (s' : Fs) (w : IsFile s ip) (g : Allocated s c s') (bn : ℕ)
    (low : ndirect ≤ bn) (high : bn < maxfile) (some_block : addr ip ndirect ≢ 0)
    (empty : load_word (s.blocks (addr ip ndirect)) (4 * (bn - ndirect)) ≡ 0) where
  abbrev pub linked : Fs
  linked = update (addr ip ndirect) (λ m. store_word m (4 * (bn - ndirect)) c) s'

  linked_block :
      linked.blocks (addr ip ndirect)
      ≡ store_word (s'.blocks (addr ip ndirect)) (4 * (bn - ndirect)) c
  linked_block = put_block_same s'.blocks (addr ip ndirect) _

  unlinked : (x : ℕ) → x ≢ addr ip ndirect → linked.blocks x ≡ s'.blocks x
  unlinked x ne = put_block_other s'.blocks (addr ip ndirect) x _ ne

  new_apart : c ≢ addr ip ndirect
  new_apart e =
      absurd
        (cc (subst (λ k. used s k ≡ true) (sym e) (w.held 0 (omega arith) some_block).1, g.free))

  test_word : (b : ℕ) → (addr ip ndirect == 0) ≡ false
  test_word b = ground arith

  word_here : indirect_word linked ip bn ≡ c
  word_here =
      rw (test_word bn, linked_block)
        (load_word-store_word (s'.blocks (addr ip ndirect)) (4 * (bn - ndirect)) c
          (omega (arith, g.inside, w.words)))

  word_other : (b : ℕ) → ndirect ≤ b → b ≢ bn → indirect_word linked ip b ≡ indirect_word s ip b
  word_other b lo ne =
      rw (test_word bn, linked_block)
        (load_word-store_word_other (s'.blocks (addr ip ndirect)) (bn - ndirect) (b - ndirect) c
            (omega arith)
          ∙ ap (λ m. load_word m (4 * (b - 12))) (spared s ip c s' w g 0 (omega arith) some_block))

  pub indirect-Grown : Grown s ip (suc bn) c linked ip
  indirect-Grown = record {
    empty = rw (not_low bn low, test_word bn) empty;
    inside = g.inside;
    free = g.free;
    now = λ j h.
        ap (λ m. bit_of m (j % 4096))
          (unlinked (bblock s' j)
            (λ e. w.off_map 0 j (omega arith) h some_block (sym e ∙ map_same j)))
        ∙ g.now j h;
    zeroed = λ x p ne. ap (λ (m : Memory). m x) (unlinked c new_apart) ∙ g.zeroed x p;
    places = at_any;
    kept = λ j p ne.
        unlinked (place s ip (suc j))
          (λ e. absurd (ground (arith, w.apart (suc j) 0 (omega arith) (omega arith) e ne)))
        ∙ spared s ip c s' w g (suc j) (omega arith) ne;
    same = g.same;
    thirteen = w.thirteen;
    rest = refl;
  }
    where
      not_low : (b : ℕ) → ndirect ≤ b → ltb b ndirect ≡ false
      not_low b h = ground arith

      map_same : (j : ℕ) → bblock s' j ≡ bblock s j
      map_same j = ap (λ b. j / 4096 + b.bmapstart) g.same

      at_any : (j : ℕ) → j ≤ maxfile → place linked ip j ≡ (if suc bn == j then c else place s ip j)
      at_any zero p = let t : (suc bn == 0) ≡ false = ground arith in rw t refl
      at_any (suc b) p = elim (Bool-cases (ltb b ndirect)) [
        | inl lo ↦ let ne : (suc bn == suc b) ≡ false = ground arith in rw (lo, ne) refl
        | inr hi ↦ elim (Bool-cases (bn == b)) [
          | inl e ↦
              let t : (suc bn == suc b) ≡ true = ground arith in
              rw (hi, t) (subst (λ k. indirect_word linked ip k ≡ c) ((==_iff bn b).0 e) word_here)
          | inr e ↦
              let t : (suc bn == suc b) ≡ false = ground arith in
              rw (hi, t) (word_other b (ground arith) (ground arith))
        ]
      ]
