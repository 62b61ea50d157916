-- ===== src/Fs/Content/Loop.antt =====
-- The loop of `writei`.
use mathlib.Core.Path.{subst}
use os_ass.Common.Memory.{Memory}
use os_ass.Fs.{Fs, bsize, maxfile, update}
use os_ass.Fs.Inode.{Inode}
use os_ass.Fs.Inode.Places.{IsFile}
use os_ass.Fs.Inode.Bmap.{Mapped, bmap-Maps}
use os_ass.Fs.Content.{chunk, splice, write_loop}
use os_ass.Fs.Content.Write.{chunk-IsFile, Wrote, Wrote-none, Wrote-chunk}
use os_ass.Common.{
  ℕ, zero, suc, ◌+◌, ◌-◌, ◌*◌, ◌/◌, ◌%◌, ◌≤◌, ◌<◌, ◌≡◌, refl, ◌⊎◌, inl, inr, arith, ◌==◌,
  Bool-cases, Outcome, done, panic,
}

-- `writei` runs out of blocks, or it has written.
abbrev pub Writes :
    Fs → Inode → (src : Memory) → (at off left : ℕ) → Outcome (ℕ × Inode × Fs) → Type 0
Writes s ip src at off left r =
    ((ip' : Inode) × (s' : Fs) × (r ≡ done (off + left, ip', s'))
      × Wrote s ip src at off left s' ip')
    ⊎ (r ≡ panic "balloc: out of blocks")

pub write_loop-Writes :
    (r : ℕ) (s : Fs) (ip : Inode) (src : Memory) (at off left : ℕ)
    → IsFile s ip
    → off + left ≤ maxfile * bsize
    → left ≤ r
    → Writes s ip src at off left (write_loop r s ip src at off left)
unfolding write_loop
write_loop-Writes zero s ip src at off left w fits h =
    let e : off + left ≡ off = omega arith in
    inl (ip, s, rw e refl, Wrote-none s ip src at off left w (omega arith))
write_loop-Writes (suc r) s ip src at off left w fits h = elim (Bool-cases (left == 0)) [
  | inl z ↦
      let e : off + left ≡ off = ground arith in
      inl (ip, s, rw (write_loop, z, e) refl, Wrote-none s ip src at off left w (ground arith))
  | inr nz ↦ elim (bmap-Maps s ip (off / bsize) w (ground arith)) [
    | inr e ↦ inr (rw (write_loop, nz, e) refl)
    | inl (a, ip₁, s₁, e, g) ↦
        rw (write_loop, nz, e)
          (after_chunk a ip₁ s₁ g (ground arith) (chunk off left) refl (
            write_loop-Writes r (update a (splice (off % bsize) (chunk off left) src at) s₁) ip₁ src
              (at + chunk off left) (off + chunk off left) (left - chunk off left)
              (fits_after a ip₁ s₁ g (ground arith)) (ground arith) (ground arith)))
  ]
]
  where
    fits_after :
        (a : ℕ) (ip₁ : Inode) (s₁ : Fs)
        → Mapped s ip (suc (off / bsize)) a s₁ ip₁
        → off < maxfile * bsize
        → IsFile (update a (splice (off % bsize) (chunk off left) src at) s₁) ip₁
    fits_after a ip₁ s₁ g here =
        subst (λ b. IsFile (update b (splice (off % bsize) (chunk off left) src at) s₁) ip₁) g.at
          (chunk-IsFile s₁ ip₁ src at off (chunk off left) g.fits here (rw g.at g.there)
            (ground arith))

    after_chunk :
        (a : ℕ) (ip₁ : Inode) (s₁ : Fs)
        → Mapped s ip (suc (off / bsize)) a s₁ ip₁
        → off < maxfile * bsize
        → (m : ℕ) → m ≡ chunk off left
        → Writes
            (update a (splice (off % bsize) m src at) s₁)
            ip₁
            src
            (at + m)
            (off + m)
            (left - m)
            (write_loop r
              (update a (splice (off % bsize) m src at) s₁)
              ip₁
              src
              (at + m)
              (off + m)
              (left - m))
        → Writes s ip src at off left (
            write_loop r
              (update a (splice (off % bsize) m src at) s₁)
              ip₁
              src
              (at + m)
              (off + m)
              (left - m))
    after_chunk a ip₁ s₁ g here m em (inr e) = inr e
    after_chunk a ip₁ s₁ g here m em (inl (ip', s', e, wr)) =
        let q : off + m + (left - m) ≡ off + left = ground arith in
        inl (
          ip',
          s',
          rw q at e,
          Wrote-chunk s ip src at off left m a s₁ s' ip₁ ip' here (ground arith) (ground arith) g
              wr,
        )
