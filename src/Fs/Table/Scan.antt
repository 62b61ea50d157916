-- ===== src/Fs/Table/Scan.antt =====
-- The one loop of `iget` against two searches.
use os_ass.Fs.Inode.{Inode}
use os_ass.Fs.Table.{is_entry, is_free, iget_loop}
use os_ass.Common.{
  ℕ, suc, ◌≡◌, refl, inl, inr, Option, none, some, List, [], ◌∷◌, arith, Bool-cases, find_from,
  find_index,
}

abbrev pub or_else : Option ℕ → Option ℕ → Option ℕ
or_else (some i) o = some i
or_else none o = o

-- The loop returns at the first entry for the inode; and if it comes to its end, `empty` is the first
-- free entry.
iget_loop-find :
    (dev inum i : ℕ) (empty : Option ℕ) (ips : List Inode)
    → ((iget_loop dev inum i empty ips).0 ≡ find_from (is_entry dev inum) i ips)
      × (find_from (is_entry dev inum) i ips ≡ none
          → (iget_loop dev inum i empty ips).1 ≡ or_else empty (find_from is_free i ips))
unfolding iget_loop find_from
iget_loop-find dev inum i none [] = (refl, λ _. refl)
iget_loop-find dev inum i (some e) [] = (refl, λ _. refl)
iget_loop-find dev inum i (some e) (ip ∷ ips) = elim (Bool-cases (is_entry dev inum ip)) [
  | inl hit ↦ rw hit (refl, λ h. absurd (ground arith))
  | inr miss ↦ rw miss (iget_loop-find dev inum (suc i) (some e) ips)
]
iget_loop-find dev inum i none (ip ∷ ips) = elim (Bool-cases (is_entry dev inum ip)) [
  | inl hit ↦ rw hit (refl, λ h. absurd (ground arith))
  | inr miss ↦ elim (Bool-cases (is_free ip)) [
    | inl free ↦ rw (miss, free) (iget_loop-find dev inum (suc i) (some i) ips)
    | inr held ↦ rw (miss, held) (iget_loop-find dev inum (suc i) none ips)
  ]
]

pub iget_loop-entry :
    (dev inum : ℕ) (ips : List Inode)
    → (iget_loop dev inum 0 none ips).0 ≡ find_index (is_entry dev inum) ips
unfolding find_index
iget_loop-entry dev inum ips = (iget_loop-find dev inum 0 none ips).0

pub iget_loop-free :
    (dev inum : ℕ) (ips : List Inode)
    → find_index (is_entry dev inum) ips ≡ none
    → (iget_loop dev inum 0 none ips).1 ≡ find_index is_free ips
unfolding find_index
iget_loop-free dev inum ips h = (iget_loop-find dev inum 0 none ips).1 h
