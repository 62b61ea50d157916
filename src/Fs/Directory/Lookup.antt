-- ===== src/Fs/Directory/Lookup.antt =====
-- Looking up a name in a directory.
use os_ass.Common.Memory.{Memory}
use mathlib.Core.Bool.{false≢true}
use mathlib.Core.Path.{subst}
use os_ass.Fs.{Fs, maxfile, bsize}
use os_ass.Fs.Inode.{Inode, t_dir, t_dev, load_half}
use os_ass.Fs.Inode.Places.{content}
use os_ass.Fs.Content.{Devices, window, readi}
use os_ass.Fs.Content.Read.{IsDense, readi-window}
use os_ass.Fs.Directory.{
  entry_size, entry_of, is_named, find_entry, find_name, get_found, dirlookup,
}
use os_ass.Fs.Table.{iget}
use os_ass.Fs.Directory.Names.{Names, is_named-Names, load_half-window, length-window}
use os_ass.Common.{
  ℕ, zero, suc, ◌+◌, ◌-◌, ◌*◌, ◌/◌, ◌%◌, ◌^◌, ◌≤◌, ◌<◌, min, ◌≡◌, refl, sym, ap, ◌∙◌, ◌≢◌, ◌⊎◌, inl,
  inr, true, false, none, some, List, arith, ltb, ◌==◌, if◌then◌else◌, Bool-cases, ltb→lt, ==_iff,
  length, done, ◌>>=◌,
}

-- A directory without holes and without a part of an entry.
pub record IsDirectory (s : Fs) (dp : Inode) : Type 0 where
  pub dense : IsDense s dp
  pub fits : dp.size ≤ maxfile * bsize
  pub whole : dp.size % entry_size ≡ 0
  pub kind : dp.type_of ≡ t_dir

-- A round of the loop.
find_entry-round :
    (devsw : Devices) (s : Fs) (dp : Inode) (name : Memory) (r off : ℕ) (bytes : List ℕ)
    → ltb off dp.size ≡ true
    → readi devsw s dp off entry_size ≡ done (some bytes, dp, s)
    → length bytes ≡ entry_size
    → find_entry devsw (suc r) s dp name off ≡ (
        if is_named name (entry_of bytes)
        then done (some (off, load_half (entry_of bytes) 0), dp, s)
        else find_entry devsw r s dp name ((off + entry_size) % 2 ^ 32))
unfolding find_entry
find_entry-round devsw s dp name r off bytes more got len = rw (find_entry, more, got, len) refl

module _ (devsw : Devices) (s : Fs) (dp : Inode) (name : Memory) (d : IsDirectory s dp) where
  -- The first entry with the name.
  abbrev pub Entry : (j : ℕ) → Type 0
  Entry j =
      (16 * j < dp.size)
      × Names name (content s dp) (16 * j)
      × ((i : ℕ) → i < j → Names name (content s dp) (16 * i) → ⊥)

  abbrev pub NoEntry : Type 0
  NoEntry = (j : ℕ) → 16 * j < dp.size → Names name (content s dp) (16 * j) → ⊥

  read_entry :
      (k : ℕ)
      → 16 * k < dp.size
      → readi devsw s dp (16 * k) entry_size
        ≡ done (some (window (content s dp) (16 * k) entry_size), dp, s)
  read_entry k lt =
      let e : min 16 (dp.size - 16 * k) ≡ 16 = omega (arith, d.whole) in
      let no_dev : dp.type_of ≢ t_dev = λ t. absurd (omega (arith, t, d.kind)) in
      readi-window devsw s dp (16 * k) 16 d.dense d.fits no_dev (omega arith)
        (omega (arith, d.fits))
      ∙ ap (λ n. done (some (window (content s dp) (16 * k) n), dp, s)) e

  find_entry-First :
      (r k : ℕ)
      → dp.size ≤ 16 * (k + r)
      → ((i : ℕ) → i < k → Names name (content s dp) (16 * i) → ⊥)
      → ((j : ℕ) × (find_entry devsw r s dp name (16 * k)
            ≡ done (some (16 * j, load_half (content s dp) (16 * j)), dp, s))
          × Entry j)
        ⊎ ((find_entry devsw r s dp name (16 * k) ≡ done (none, dp, s)) × NoEntry)
  unfolding find_entry
  find_entry-First zero k enough before = inr (refl, λ j lt n. before j (omega arith) n)
  find_entry-First (suc r) k enough before = elim (Bool-cases (ltb (16 * k) dp.size)) [
    | inr past ↦ inr (rw past refl, λ j lt n. before j (ground arith) n)
    | inl more ↦ elim (Bool-cases (is_named name (entry_of (window (content s dp) (16 * k) 16)))) [
      | inl hit ↦ inl (
        k,
        here k more hit,
        (ltb→lt (16 * k) dp.size more, (is_named-Names name (content s dp) (16 * k)).0 hit, before),
      )
      | inr miss ↦
          let on = next k more miss in
          elim (find_entry-First r (suc k) (omega arith) (further k before miss)) [
            | inl (j, e, entry) ↦ inl (j, on ∙ e, entry)
            | inr (e, no_entry) ↦ inr (on ∙ e, no_entry)
          ]
    ]
  ]
    where
      round :
          (k : ℕ)
          → ltb (16 * k) dp.size ≡ true
          → find_entry devsw (suc r) s dp name (16 * k) ≡ (
              if is_named name (entry_of (window (content s dp) (16 * k) 16))
              then done
                  (some (16 * k, load_half (entry_of (window (content s dp) (16 * k) 16)) 0), dp, s)
              else find_entry devsw r s dp name ((16 * k + entry_size) % 2 ^ 32))
      round k more =
          find_entry-round devsw s dp name r (16 * k) (window (content s dp) (16 * k) 16) more
            (read_entry k (ltb→lt (16 * k) dp.size more)) (length-window (content s dp) (16 * k) 16)

      here :
          (k : ℕ)
          → ltb (16 * k) dp.size ≡ true
          → is_named name (entry_of (window (content s dp) (16 * k) 16)) ≡ true
          → find_entry devsw (suc r) s dp name (16 * k)
            ≡ done (some (16 * k, load_half (content s dp) (16 * k)), dp, s)
      here k more hit =
          round k more
          ∙ ap
              (λ t.
                if t
                then done (
                  some (16 * k, load_half (entry_of (window (content s dp) (16 * k) 16)) 0),
                  dp,
                  s,
                )
                else find_entry devsw r s dp name ((16 * k + entry_size) % 2 ^ 32))
              hit
          ∙ ap (λ h. done (some (16 * k, h), dp, s)) (load_half-window (content s dp) (16 * k))

      next :
          (k : ℕ)
          → ltb (16 * k) dp.size ≡ true
          → is_named name (entry_of (window (content s dp) (16 * k) 16)) ≡ false
          → find_entry devsw (suc r) s dp name (16 * k) ≡ find_entry devsw r s dp name (16 * suc k)
      next k more miss =
          let lt = ltb→lt (16 * k) dp.size more in
          let e : (16 * k + 16) % 2 ^ 32 ≡ 16 * suc k = omega (arith, lt, d.fits) in
          round k more
          ∙ ap
              (λ t.
                if t
                then done (
                  some (16 * k, load_half (entry_of (window (content s dp) (16 * k) 16)) 0),
                  dp,
                  s,
                )
                else find_entry devsw r s dp name ((16 * k + entry_size) % 2 ^ 32))
              miss
          ∙ ap (find_entry devsw r s dp name) e

      further :
          (k : ℕ)
          → ((i : ℕ) → i < k → Names name (content s dp) (16 * i) → ⊥)
          → is_named name (entry_of (window (content s dp) (16 * k) 16)) ≡ false
          → (i : ℕ) → i < suc k
          → Names name (content s dp) (16 * i)
          → ⊥
      further k before miss i lt n = elim (Bool-cases (i == k)) [
        | inl e ↦ false≢true (
            sym miss
            ∙ (is_named-Names name (content s dp) (16 * k)).1
                (subst (λ q. Names name (content s dp) (16 * q)) ((==_iff i k).0 e) n))
        | inr ne ↦ before i (ground arith) n
      ]

  -- The search of `dirlookup`, up to `iget`.
  find_name-First :
      ((j : ℕ) × (find_name devsw s dp name
          ≡ done (some (16 * j, load_half (content s dp) (16 * j)), dp, s))
        × Entry j)
      ⊎ ((find_name devsw s dp name ≡ done (none, dp, s)) × NoEntry)
  unfolding find_name
  find_name-First =
      let is_dir : (dp.type_of == t_dir) ≡ true = (==_iff dp.type_of t_dir).1 d.kind in
      elim (find_entry-First (dp.size / 16 + 1) 0 (omega arith) (λ i h. absurd (omega arith))) [
        | inl (j, e, entry) ↦ inl (j, rw (find_name, is_dir) e, entry)
        | inr (e, no_entry) ↦ inr (rw (find_name, is_dir) e, no_entry)
      ]

  -- `dirlookup` in a directory without holes finds the first entry in use that has the name: it returns
  -- what `iget` does for the number of its inode, or panics as that does, and the directory and the
  -- blocks do not change. It answers that there is none, and changes nothing, exactly if no entry has
  -- the name.
  pub dirlookup-First :
      (ips : List Inode)
      → ((j : ℕ) × (dirlookup devsw s ips dp name ≡ (
            iget dp.dev (load_half (content s dp) (16 * j)) ips >>= λ r.
            done (some (16 * j, r.0), r.1, dp, s)))
          × Entry j)
        ⊎ ((dirlookup devsw s ips dp name ≡ done (none, ips, dp, s)) × NoEntry)
  unfolding dirlookup
  dirlookup-First ips = elim find_name-First [
    | inl (j, e, entry) ↦ inl (j, ap (λ o. o >>= get_found devsw ips) e, entry)
    | inr (e, no_entry) ↦ inr (ap (λ o. o >>= get_found devsw ips) e, no_entry)
  ]
