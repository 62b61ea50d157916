-- ===== src/Fs/Content/RoundTrip.antt =====
-- `writei`, whole, and `readi` of what it has written.
use os_ass.Fs.Content.Loop.{write_loop-Writes}
use mathlib.Core.Path.{subst}
use os_ass.Common.Memory.{Memory}
use os_ass.Fs.{Fs, bsize, maxfile}
use os_ass.Fs.Inode.{Inode, t_dev, iblock, iupdate, store_dinode, dinode_at}
use os_ass.Fs.Inode.Places.{place, content, IsFile}
use os_ass.Fs.Content.{window, Devices, grow, readi, writei}
use os_ass.Fs.Content.Read.{IsDense, readi-window, window-ext}
use os_ass.Fs.Content.Write.{update-IsFile, place-update, content-update, Wrote}
use os_ass.Common.{
  ℕ, suc, ◌+◌, ◌-◌, ◌*◌, ◌/◌, ◌%◌, ◌^◌, ◌≤◌, ◌<◌, min, ◌≡◌, refl, sym, ap, ◌∙◌, ◌≢◌, ◌⊎◌, inl, inr,
  true, false, ◌&&◌, ◌||◌, some, arith, ltb, leb, ◌==◌, if◌then◌else◌, Bool-cases, done, panic,
}

-- What a call of `writei` leaves: the file has the new bytes where they were to go and the old ones
-- elsewhere, it reaches at least to their end, and it has no holes if it had none.
pub record Written (s : Fs) (ip : Inode) (src : Memory) (at off n : ℕ) (s' : Fs) (ip' : Inode)
    : Type 0 where
  pub fits : IsFile s' ip'
  pub size : (ip'.size ≡ ip.size) ⊎ (ip'.size ≡ off + n)
  pub reach : (ip.size ≤ ip'.size) × (off + n ≤ ip'.size ⊎ (n ≡ 0))
  pub type_same : ip'.type_of ≡ ip.type_of
  pub bytes :
      (pos : ℕ)
      → pos < maxfile * bsize
      → content s' ip' pos
        ≡ (if leb off pos && ltb pos (off + n) then src (at + (pos - off)) else content s ip pos)
  pub dense : IsDense s' ip'

module _ (s : Fs) (ip : Inode) (src : Memory) (at off n : ℕ) (inside : off ≤ ip.size)
    (big : ip.size ≤ maxfile * bsize) (fits : off + n ≤ maxfile * bsize)
    (dense : IsDense s ip) where
  same_size : (ip₁ : Inode) → record ip₁ { addrs = ip.addrs } ≡ ip → ip₁.size ≡ ip.size
  same_size ip₁ e = ap (λ (k : Inode). k.size) e

  same_type : (ip₁ : Inode) → record ip₁ { addrs = ip.addrs } ≡ ip → ip₁.type_of ≡ ip.type_of
  same_type ip₁ e = ap (λ (k : Inode). k.type_of) e

  -- The blocks of all positions below the new end are there.
  reached :
      (s₁ : Fs) (ip₁ : Inode)
      → Wrote s ip src at off n s₁ ip₁
      → (bn : ℕ) → (bn * bsize < ip.size) ⊎ (bn * bsize < off + n)
      → place s₁ ip₁ (suc bn) ≢ 0
  reached s₁ ip₁ w bn h = elim (Bool-cases (ltb (bn * bsize) ip.size)) [
    | inl old ↦ w.more (suc bn) (ground arith) (dense bn (ground arith))
    | inr new ↦
        let e : bn * bsize / bsize ≡ bn = omega arith in
        subst (λ k. place s₁ ip₁ (suc k) ≢ 0) e
          (w.filled (bn * bsize) (ground arith) (ground (arith, h)))
  ]

  -- The size stays.
  kept-Written :
      (s₁ : Fs) (ip₁ : Inode)
      → Wrote s ip src at off n s₁ ip₁
      → (ltb 0 n && ltb ip₁.size (off + n)) ≡ false
      → Written s ip src at off n s₁ ip₁
  kept-Written s₁ ip₁ w still = record {
    fits = w.fits;
    size = inl (same_size ip₁ w.rest);
    reach = (omega (arith, same_size ip₁ w.rest), far);
    type_same = same_type ip₁ w.rest;
    bytes = w.bytes;
    dense = λ bn h. reached s₁ ip₁ w bn (inl (omega (arith, same_size ip₁ w.rest)));
  }
    where
      far : (off + n ≤ ip₁.size) ⊎ (n ≡ 0)
      far = ground arith

  -- The file has grown, and its inode goes to the disk.
  grown-Written :
      (s₁ : Fs) (ip₁ : Inode)
      → Wrote s ip src at off n s₁ ip₁
      → (ltb 0 n && ltb ip₁.size (off + n)) ≡ true
      → Written s ip src at off n
          (iupdate (record ip₁ { size = off + n }) s₁)
          (record ip₁ { size = off + n })
  unfolding iupdate
  grown-Written s₁ ip₁ w yes_grown = record {
    fits = update-IsFile (off + n) s₁ ip₁ home change w.fits w.fits.inode_off_map off_head;
    size = inr refl;
    reach = (ground (arith, same_size ip₁ w.rest), inl (omega arith));
    type_same = same_type ip₁ w.rest;
    bytes = λ pos h.
        content-update (off + n) s₁ ip₁ home change w.fits w.fits.inode_off_map off_head pos
          (λ ne. w.fits.off_inode (suc (pos / bsize)) (omega arith) ne)
        ∙ w.bytes pos h;
    dense = λ bn h.
        rw (place-update (off + n) s₁ ip₁ home change w.fits w.fits.inode_off_map off_head (suc bn))
          (reached s₁ ip₁ w bn (inr h));
  }
    where
      home : ℕ
      home = iblock s₁ ip₁.inum

      change : Memory → Memory
      change = store_dinode (dinode_at ip₁.inum) (record ip₁ { size = off + n })

      off_head : place s₁ ip₁ 0 ≢ 0 → home ≢ place s₁ ip₁ 0
      off_head ne e = w.fits.off_inode 0 (omega arith) ne (sym e)

  grow-Written :
      (s₁ : Fs) (ip₁ : Inode)
      → Wrote s ip src at off n s₁ ip₁
      → let (ip', s') = grow n (off + n) ip₁ s₁ in Written s ip src at off n s' ip'
  grow-Written s₁ ip₁ w = elim (Bool-cases (ltb 0 n && ltb ip₁.size (off + n))) [
    | inl y ↦ rw y (grown-Written s₁ ip₁ w y)
    | inr no_more ↦ rw no_more (kept-Written s₁ ip₁ w no_more)
  ]

  -- A write into a well-formed file without holes, no larger than the largest file and no device, from
  -- a position inside it to an end within the largest file: the call writes all bytes, or panics as no
  -- block is free. In the first case the file's content is the new bytes where they
  -- were to go and the old ones elsewhere, its size reaches to their end, and it has no holes.
  pub writei-Written :
      (devsw : Devices)
      → IsFile s ip
      → ip.type_of ≢ t_dev
      → ((ip' : Inode) × (s' : Fs) × (writei devsw s ip src at off n ≡ done (some n, ip', s'))
          × Written s ip src at off n s' ip')
        ⊎ (writei devsw s ip src at off n ≡ panic "balloc: out of blocks")
  unfolding writei
  writei-Written devsw file no_dev =
      elim (write_loop-Writes n s ip src at off n file fits (omega arith)) [
        | inr e ↦ inr (rw (writei, test_dev, guards, top, e) refl)
        | inl (ip₁, s₁, e, w) ↦ inl (
          (grow n (off + n) ip₁ s₁).0,
          (grow n (off + n) ip₁ s₁).1,
          rw (writei, test_dev, guards, top, e) refl,
          grow-Written s₁ ip₁ w,
        )
      ]
    where
      test_dev : (ip.type_of == t_dev) ≡ false
      test_dev = ground arith

      guards : (ltb ip.size off || ltb ((off + n) % 2 ^ 32) off) ≡ false
      guards = ground arith

      top : ltb (maxfile * bsize) ((off + n) % 2 ^ 32) ≡ false
      top = ground arith

  -- What `writei` has written to a well-formed file without holes, no larger than the largest file and no
  -- device, from a position inside it to an end within the largest file, `readi` reads back from there,
  -- without a change: the same bytes, as many. Or `writei` panics as no block is free.
  pub readi-writei :
      (devsw : Devices)
      → IsFile s ip
      → ip.type_of ≢ t_dev
      → ((ip' : Inode) × (s' : Fs) × (writei devsw s ip src at off n ≡ done (some n, ip', s'))
          × (readi devsw s' ip' off n ≡ done (some (window src at n), ip', s')))
        ⊎ (writei devsw s ip src at off n ≡ panic "balloc: out of blocks")
  readi-writei devsw file no_dev = elim (writei-Written devsw file no_dev) [
    | inr e ↦ inr e
    | inl (ip', s', e, w) ↦ inl (ip', s', e, back ip' s' w)
  ]
    where
      back :
          (ip' : Inode) (s' : Fs)
          → Written s ip src at off n s' ip'
          → readi devsw s' ip' off n ≡ done (some (window src at n), ip', s')
      back ip' s' w =
          readi-window devsw s' ip' off n w.dense (ground (arith, w.size))
            (λ e. no_dev (sym w.type_same ∙ e)) (omega (arith, w.reach.0)) (omega arith)
          ∙ ap (λ xs. done (some xs, ip', s'))
              ((let e : min n (ip'.size - off) ≡ n = ground (arith, w.reach) in
                  ap (window (content s' ip') off) e)
                ∙ window-ext (content s' ip') src off at n (λ i p.
                  w.bytes (off + i) (omega arith)
                  ∙ (let t : (leb off (off + i) && ltb (off + i) (off + n)) ≡ true = ground arith in
                      let d : off + i - off ≡ i = omega arith in rw (t, d) refl)))
