-- ===== src/Fs/Content/Read.antt =====
-- `readi` of a file without holes: exactly the bytes of its content, and no change.
use os_ass.Common.Memory.{Memory, load_word}
use os_ass.Fs.{Fs, bsize, ndirect, nindirect, maxfile}
use os_ass.Fs.Inode.{Inode, t_dev, addr, direct, indirect, bmap}
use os_ass.Fs.Inode.Places.{place, content}
use os_ass.Fs.Content.{window, chunk, read_loop, Devices, readi}
use os_ass.Common.{
  ℕ, zero, suc, ◌+◌, ◌-◌, ◌*◌, ◌/◌, ◌%◌, ◌^◌, ◌≤◌, ◌<◌, min, ◌≡◌, refl, sym, ap, ◌∙◌, ◌≢◌, inl, inr,
  true, false, ◌||◌, some, ◌∷◌, ◌++◌, arith, ltb, ◌==◌, Bool-cases, done,
}

window-append : (f : Memory) (a n k : ℕ) → window f a (n + k) ≡ window f a n ++ window f (a + n) k
window-append f a zero k =
    let e : 0 + k ≡ k = omega arith in let e' : a + 0 ≡ a = omega arith in rw (e, e') refl
window-append f a (suc n) k =
    let e : suc n + k ≡ suc (n + k) = omega arith in
    let e' : suc a + n ≡ a + suc n = omega arith in
    rw e (ap (λ xs. f a ∷ xs) (window-append f (suc a) n k ∙ rw e' refl))

pub window-ext :
    (f g : Memory) (a b n : ℕ)
    → ((i : ℕ) → i < n → f (a + i) ≡ g (b + i))
    → window f a n ≡ window g b n
window-ext f g a b zero h = refl
window-ext f g a b (suc n) h =
    let e : a + 0 ≡ a = omega arith in
    let e' : b + 0 ≡ b = omega arith in
    rw (rw (e, e') at (h 0 (omega arith))) (
      ap (λ xs. g b ∷ xs)
        (window-ext f g (suc a) (suc b) n (λ i p.
          let q : suc a + i ≡ a + suc i = omega arith in
          let q' : suc b + i ≡ b + suc i = omega arith in rw (q, q') (h (suc i) (omega arith)))))

-- `bmap` of a block that a file has changes nothing.
pub bmap-there :
    (s : Fs) (ip : Inode) (bn : ℕ)
    → bn < maxfile
    → place s ip (suc bn) ≢ 0
    → bmap s ip bn ≡ done (place s ip (suc bn), ip, s)
unfolding bmap direct indirect
bmap-there s ip bn h ne = elim (Bool-cases (ltb bn ndirect)) [
  | inl low ↦
      let full : (addr ip bn == 0) ≡ false = ground (arith, rw low at ne) in
      rw (bmap, low, direct, full) refl
  | inr high ↦ elim (Bool-cases (addr ip ndirect == 0)) [
    | inl z ↦ absurd ((rw (high, z) at ne) refl)
    | inr nz ↦
        let inside : ltb (bn - ndirect) nindirect ≡ true = ground arith in
        let full : (load_word (s.blocks (addr ip ndirect)) (4 * (bn - ndirect)) == 0) ≡ false =
          ground (arith, rw (high, nz) at ne) in
        rw (bmap, high, inside, direct, nz, indirect, full) refl
  ]
]

-- Every block up to the end of the file is there.
abbrev pub IsDense : Fs → Inode → Type 0
IsDense s ip = (bn : ℕ) → bn * bsize < ip.size → place s ip (suc bn) ≢ 0

-- The bytes of one block, as the loops of `readi` and `writei` go over them.
pub content-chunk :
    (s : Fs) (ip : Inode) (off i : ℕ)
    → place s ip (suc (off / bsize)) ≢ 0
    → i < bsize - off % bsize
    → content s ip (off + i) ≡ s.blocks (place s ip (suc (off / bsize))) (off % bsize + i)
content-chunk s ip off i ne h =
    let e : (off + i) / bsize ≡ off / bsize = omega arith in
    let e' : (off + i) % bsize ≡ off % bsize + i = omega arith in
    let there : (place s ip (suc (off / bsize)) == 0) ≡ false = ground arith in
    rw (e, e', there) refl

window-chunk :
    (s : Fs) (ip : Inode) (off left m : ℕ)
    → m ≡ chunk off left
    → place s ip (suc (off / bsize)) ≢ 0
    → window (s.blocks (place s ip (suc (off / bsize)))) (off % bsize) m
        ++ window (content s ip) (off + m) (left - m)
      ≡ window (content s ip) off left
window-chunk s ip off left m e ne =
    let all : m + (left - m) ≡ left = ground arith in
    ap (λ xs. xs ++ window (content s ip) (off + m) (left - m))
      (window-ext (s.blocks (place s ip (suc (off / bsize)))) (content s ip) (off % bsize) off m
        (λ i p. sym (content-chunk s ip off i ne (ground arith))))
    ∙ sym (window-append (content s ip) off m (left - m))
    ∙ ap (window (content s ip) off) all

read_loop-window :
    (r : ℕ) (s : Fs) (ip : Inode) (off left : ℕ)
    → IsDense s ip
    → ip.size ≤ maxfile * bsize
    → off + left ≤ ip.size
    → left ≤ r
    → read_loop r s ip off left ≡ done (window (content s ip) off left, ip, s)
unfolding read_loop
read_loop-window zero s ip off left d big fits h = let e : left ≡ 0 = omega arith in rw e refl
read_loop-window (suc r) s ip off left d big fits h = elim (Bool-cases (left == 0)) [
  | inl z ↦ let e : left ≡ 0 = ground arith in rw e refl
  | inr nz ↦
      let here = d (off / bsize) (ground arith) in
      rw
        (
          read_loop,
          nz,
          bmap-there s ip (off / bsize) (ground arith) here,
          read_loop-window r s ip (off + chunk off left) (left - chunk off left) d big
              (ground arith) (ground arith),
        )
        (ap (λ xs. done (xs, ip, s)) (window-chunk s ip off left (chunk off left) refl here))
]

-- A file without holes, that is no device, is read from a position inside it: the call returns the
-- bytes of its content from there on, as many as asked for or as there are, and changes nothing.
pub readi-window :
    (devsw : Devices) (s : Fs) (ip : Inode) (off n : ℕ)
    → IsDense s ip
    → ip.size ≤ maxfile * bsize
    → ip.type_of ≢ t_dev
    → off ≤ ip.size
    → off + n < 2 ^ 32
    → readi devsw s ip off n
      ≡ done (some (window (content s ip) off (min n (ip.size - off))), ip, s)
unfolding readi
readi-window devsw s ip off n d big no_dev inside fits =
    rw (readi, test_dev, guards)
      (elim (Bool-cases (ltb ip.size ((off + n) % 2 ^ 32))) [
        | inl more ↦
            let e : min n (ip.size - off) ≡ ip.size - off = ground arith in
            rw
              (
                more,
                e,
                read_loop-window (ip.size - off) s ip off (ip.size - off) d big (omega arith)
                    (omega arith),
              )
              refl
        | inr all ↦
            let e : min n (ip.size - off) ≡ n = ground arith in
            rw (all, e, read_loop-window n s ip off n d big (ground arith) (omega arith)) refl
      ])
  where
    test_dev : (ip.type_of == t_dev) ≡ false
    test_dev = ground arith

    guards : (ltb ip.size off || ltb ((off + n) % 2 ^ 32) off) ≡ false
    guards = ground arith
