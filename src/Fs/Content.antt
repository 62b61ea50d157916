-- ===== src/Fs/Content.antt =====
-- fs.c: `readi` and `writei`, the content of a file by byte positions.
pub mod Read
pub mod Write
pub mod Loop
pub mod RoundTrip
use os_ass.Common.Memory.{Memory}
use os_ass.Fs.{Fs, bsize, maxfile, update}
use os_ass.Fs.Inode.{Inode, t_dev, bmap, iupdate}
use mathlib.Core.Option
use os_ass.Common.{
  ℕ, zero, suc, ◌+◌, ◌-◌, ◌*◌, ◌/◌, ◌%◌, ◌^◌, ◌≤◌, ◌<◌, min, ◌≡◌, refl, sym, ap, ◌∙◌, ◌≢◌, ◌↔◌, ◌⊎◌,
  inl, inr, Bool, true, false, not, ◌&&◌, ◌||◌, Option, none, some, List, [], ◌∷◌, ◌++◌, map, arith,
  ltb, leb, ◌==◌, if◌then◌else◌, Bool-cases, Option-cases, ltb→lt, lt→ltb, ==_iff, ==_refl, length,
  get_elem?, get_or, set, replicate, length-append, length-map, length-set, length-replicate,
  get_elem?-set, get_or-set, get_elem?-lt-length, modify, length-modify, get_elem?-modify,
  get_elem?-append, modify-append, find_from, find_index, IsFirst, find_index-IsFirst,
  find_index-none, Outcome, done, panic, ◌>>=◌, done_inj, some_inj,
}

-- The bytes at `n` addresses from `a` on.
abbrev pub window : Memory → (a n : ℕ) → List ℕ
window m a zero = []
window m a (suc n) = m a ∷ window m (suc a) n

-- `min(n - tot, BSIZE - off%BSIZE)`, with `left` for `n - tot`
abbrev pub chunk : (off left : ℕ) → ℕ
chunk off left = min left (bsize - off % bsize)

-- The loop of `readi`: `n` rounds are enough, since each reads a byte at least.
unfoldable pub read_loop :
    (rounds : ℕ) → Fs → Inode → (off left : ℕ) → Outcome (List ℕ × Inode × Fs)
read_loop zero s ip off left = done ([], ip, s)
read_loop (suc r) s ip off left =
    if left == 0
    then done ([], ip, s)
    else (bmap s ip (off / bsize) >>= λ p.
        let m = chunk off left in
        read_loop r p.2 p.1 (off + m) (left - m) >>= λ q.
        done (window (p.2.blocks p.0) (off % bsize) m ++ q.0, q.1, q.2))

-- `memmove(bp->data + from, src, m)`
abbrev pub splice : (from m : ℕ) → (src : Memory) → (at : ℕ) → Memory → Memory
splice from m src at d x = if leb from x && ltb x (from + m) then src (at + (x - from)) else d x

unfoldable pub write_loop :
    (rounds : ℕ) → Fs → Inode → (src : Memory) → (at off left : ℕ) → Outcome (ℕ × Inode × Fs)
write_loop zero s ip src at off left = done (off, ip, s)
write_loop (suc r) s ip src at off left =
    if left == 0
    then done (off, ip, s)
    else (bmap s ip (off / bsize) >>= λ p.
        let m = chunk off left in
        write_loop r (update p.0 (splice (off % bsize) m src at) p.2) p.1 src (at + m) (off + m)
          (left - m))

-- What `writei` does after its loop has come to `off`.
abbrev pub grow : (n off : ℕ) → Inode → Fs → Inode × Fs
grow n off ip s =
    if ltb 0 n && ltb ip.size off
    then (let ip' = record ip { size = off } in (ip', iupdate ip' s))
    else (ip, s)

-- What the drivers read and write; `none` where a number has no driver, or for -1. A negative `major`
-- is a halfword above the largest number of a device.
pub record Devices : Type 0 where
  pub read : ℕ → Option (Inode → ℕ → Option (List ℕ))
  pub write : ℕ → Option (Inode → Memory → (at n : ℕ) → Option ℕ)

abbrev pub ndev : ℕ
ndev = 10

module _ (devsw : Devices) where
  abbrev pub dev_read : Inode → (n : ℕ) → Option (List ℕ)
  dev_read ip n =
      if leb ndev ip.major
      then none
      else elim (devsw.read ip.major) [ none ↦ none | some f ↦ f ip n ]

  abbrev pub dev_write : Inode → Memory → (at n : ℕ) → Option ℕ
  dev_write ip src at n =
      if leb ndev ip.major
      then none
      else elim (devsw.write ip.major) [ none ↦ none | some f ↦ f ip src at n ]

  -- The bytes read, as many as the call returns, or `none` for -1.
  unfoldable pub readi : Fs → Inode → (off n : ℕ) → Outcome (Option (List ℕ) × Inode × Fs)
  readi s ip off n =
      let n' = if ltb ip.size ((off + n) % 2 ^ 32) then ip.size - off else n in
      let bytes = read_loop n' s ip off n' in
      if ip.type_of == t_dev
      then done (dev_read ip n, ip, s)
      else if ltb ip.size off || ltb ((off + n) % 2 ^ 32) off
      then done (none, ip, s)
      else (bytes >>= λ q. done (some (q.0), q.1, q.2))

  unfoldable pub writei :
      Fs → Inode → (src : Memory) → (at off n : ℕ) → Outcome (Option ℕ × Inode × Fs)
  writei s ip src at off n =
      let run = write_loop n s ip src at off n in
      if ip.type_of == t_dev
      then done (dev_write ip src at n, ip, s)
      else if ltb ip.size off || ltb ((off + n) % 2 ^ 32) off
      then done (none, ip, s)
      else if ltb (maxfile * bsize) ((off + n) % 2 ^ 32)
      then done (none, ip, s)
      else (run >>= λ q. done (some n, (grow n q.0 q.1 q.2).0, (grow n q.0 q.1 q.2).1))
