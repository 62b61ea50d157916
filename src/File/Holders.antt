-- ===== src/File/Holders.antt =====
-- Reference counts are the numbers of those who hold a file.
use os_ass.Common.{modify_inv}
use os_ass.Common.{
  ℕ, suc, ◌<◌, ◌≡◌, refl, sym, ap, ◌∙◌, inl, inr, some, List, [], ◌∷◌, arith, ◌==◌, if◌then◌else◌,
  Bool-cases, Option-cases, ==_refl, get_elem?, modify, find_index, find_index-IsFirst, done,
  some_inj,
}
use os_ass.File.{
  File, is_unheld, filealloc, hold, filedup, nothing, left_of, release, release_last, fileclose,
}

-- How often file `i` is held by `hs`, the files that the descriptors of all processes refer to.
abbrev pub count : ℕ → List ℕ → ℕ
count i [] = 0
count i (h ∷ hs) = if h == i then suc (count i hs) else count i hs

abbrev pub Counts : List File → List ℕ → Type 0
Counts ts hs = (i : ℕ) (f : File) → get_elem? ts i ≡ some f → f.ref ≡ count i hs

-- If every file's count is the number of its holders, then `filealloc` hands out a file that nobody
-- holds, and with its new holder the counts are right again.
pub filealloc-Counts :
    (ts : List File) (hs : List ℕ) (i : ℕ)
    → Counts ts hs
    → (filealloc ts).0 ≡ some i
    → (count i hs ≡ 0) × Counts (filealloc ts).1 (i ∷ hs)
unfolding filealloc
filealloc-Counts ts hs i c e = elim (Option-cases (find_index is_unheld ts)) [
  | inl none_free ↦ absurd (ground (arith, none_free))
  | inr (k, found) ↦
      let same : k ≡ i = some_inj (rw (found, filealloc) at e) in
      let first = find_index-IsFirst is_unheld ts k found in
      let zero_held : count k hs ≡ 0 =
        sym (c k first.elem first.here) ∙ ground (arith, first.passes) in
      rw (found, filealloc, sym same)
        (
          zero_held,
          λ j f at. elim (modify_inv ts k j _ f at) [
            | inl (kj, (g, _, is)) ↦ ground (arith, ap (λ (x : File). x.ref) is, rw kj at zero_held)
            | inr (ne, was) ↦ ground (arith, c j f was)
          ],
        )
]

-- If every file's count is the number of its holders, `filedup` of a file that is held does not panic,
-- and with one more holder the counts are right again.
pub filedup-Counts :
    (ts : List File) (hs : List ℕ) (i : ℕ) (f : File)
    → Counts ts hs
    → get_elem? ts i ≡ some f
    → 0 < count i hs
    → (ts' : List File) × (filedup ts i ≡ done ts') × Counts ts' (i ∷ hs)
unfolding filedup
filedup-Counts ts hs i f c at held = (
  modify ts i hold,
  rw (filedup, at) (ground (arith, c i f at)),
  λ j g there. elim (modify_inv ts i j hold g there) [
    | inl (ij, (x, was, is)) ↦ ground (arith, ap (λ (y : File). y.ref) is, c j x was)
    | inr (ne, was) ↦ ground (arith, c j g was)
  ],
)

-- If every file's count is the number of its holders, `fileclose` by one of them does not panic, and
-- without that holder the counts are right; the pipe or the inode behind the file is closed exactly
-- when nobody else holds it.
pub fileclose-Counts :
    (ts : List File) (hs : List ℕ) (i : ℕ) (f : File)
    → Counts ts (i ∷ hs)
    → get_elem? ts i ≡ some f
    → (ts' : List File) × (fileclose ts i
        ≡ done ((if count i hs == 0 then left_of f else nothing), ts'))
      × Counts ts' hs
unfolding fileclose
fileclose-Counts ts hs i f c at = elim (Bool-cases (count i hs == 0)) [
  | inl last ↦ (
    modify ts i release_last,
    rw (fileclose, at, last) (ground (arith, refs)),
    λ j g there. elim (modify_inv ts i j release_last g there) [
      | inl (ij, (x, was, is)) ↦ ground (arith, ap (λ (y : File). y.ref) is, rw ij at last)
      | inr (ne, was) ↦ ground (arith, c j g was)
    ],
  )
  | inr more ↦ (
    modify ts i release,
    rw (fileclose, at, more) (ground (arith, refs)),
    λ j g there. elim (modify_inv ts i j release g there) [
      | inl (ij, (x, was, is)) ↦ ground (arith, ap (λ (y : File). y.ref) is, c j x was)
      | inr (ne, was) ↦ ground (arith, c j g was)
    ],
  )
]
  where
    refs : f.ref ≡ suc (count i hs)
    refs = c i f at ∙ rw (==_refl i) refl
