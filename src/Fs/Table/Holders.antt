-- ===== src/Fs/Table/Holders.antt =====
-- Each inode is in the table once, and its count is the number of those who hold it.
use os_ass.Common.{modify_inv, get_elem?-modify_self}
use mathlib.Core.Bool.{false≢true}
use os_ass.File.Holders.{count}
use os_ass.Fs.Inode.{Inode}
use os_ass.Fs.Table.{is_entry, is_free, iget_loop, hold, start, iget_end, iget}
use os_ass.Fs.Table.Scan.{iget_loop-entry, iget_loop-free}
use os_ass.Common.{
  ℕ, ◌<◌, ◌≡◌, refl, sym, ap, ◌∙◌, ◌⊎◌, inl, inr, true, false, Option, none, some, List, ◌∷◌, arith,
  ◌==◌, Option-cases, lt→ltb, ==_iff, ==_refl, get_elem?, modify, find_index, IsFirst,
  find_index-IsFirst, find_index-none, done, panic, some_inj,
}

abbrev pub Held : List Inode → List ℕ → Type 0
Held ips hs = (i : ℕ) (ip : Inode) → get_elem? ips i ≡ some ip → ip.ref ≡ count i hs

-- No two entries in use are for the same inode.
abbrev pub IsSole : List Inode → Type 0
IsSole ips =
    (i j : ℕ) (x y : Inode)
    → get_elem? ips i ≡ some x
    → get_elem? ips j ≡ some y
    → 0 < x.ref
    → 0 < y.ref
    → x.dev ≡ y.dev
    → x.inum ≡ y.inum
    → i ≡ j

iget_end-entry :
    (dev inum i : ℕ) (p : Option ℕ × Option ℕ) (ips : List Inode)
    → p.0 ≡ some i
    → iget_end dev inum p ips ≡ done (i, modify ips i hold)
iget_end-entry dev inum i (some j, empty) ips e = let s : j ≡ i = some_inj e in rw s refl
iget_end-entry dev inum i (none, empty) ips e = absurd (ground arith)

iget_end-free :
    (dev inum i : ℕ) (p : Option ℕ × Option ℕ) (ips : List Inode)
    → p.0 ≡ none
    → p.1 ≡ some i
    → iget_end dev inum p ips ≡ done (i, modify ips i (start dev inum))
iget_end-free dev inum i (some j, empty) ips e e' = absurd (ground arith)
iget_end-free dev inum i (none, some j) ips e e' = let s : j ≡ i = some_inj e' in rw s refl
iget_end-free dev inum i (none, none) ips e e' = absurd (ground arith)

iget_end-none :
    (dev inum : ℕ) (p : Option ℕ × Option ℕ) (ips : List Inode)
    → p.0 ≡ none
    → p.1 ≡ none
    → iget_end dev inum p ips ≡ panic "iget: no inodes"
iget_end-none dev inum (some j, empty) ips e e' = absurd (ground arith)
iget_end-none dev inum (none, some j) ips e e' = absurd (ground arith)
iget_end-none dev inum (none, none) ips e e' = refl

is_entry-fields :
    (dev inum : ℕ) (ip : Inode)
    → is_entry dev inum ip ≡ true
    → (0 < ip.ref) × (ip.dev ≡ dev) × (ip.inum ≡ inum)
is_entry-fields dev inum ip h = (ground arith, ground arith, ground arith)

-- One more holder of entry `i`.
pub hold-Held :
    (ips : List Inode) (hs : List ℕ) (i : ℕ) → Held ips hs → Held (modify ips i hold) (i ∷ hs)
hold-Held ips hs i c j g there = elim (modify_inv ips i j hold g there) [
  | inl (ij, (x, was, is)) ↦ ground (arith, ap (λ (y : Inode). y.ref) is, c j x was)
  | inr (ne, was) ↦ ground (arith, c j g was)
]

hold-IsSole :
    (ips : List Inode) (i : ℕ) (x : Inode)
    → get_elem? ips i ≡ some x
    → 0 < x.ref
    → IsSole ips
    → IsSole (modify ips i hold)
hold-IsSole ips i x at held u j k y z at_j at_k py pz e e' =
    let (y', was_j, py', yd, yn) = before j y at_j py in
    let (z', was_k, pz', zd, zn) = before k z at_k pz in
    u j k y' z' was_j was_k py' pz' (sym yd ∙ e ∙ zd) (sym yn ∙ e' ∙ zn)
  where
    before :
        (j : ℕ) (y : Inode)
        → get_elem? (modify ips i hold) j ≡ some y
        → 0 < y.ref
        → (w : Inode) × (get_elem? ips j ≡ some w)
          × (0 < w.ref)
          × (y.dev ≡ w.dev)
          × (y.inum ≡ w.inum)
    before j y at_j p = elim (modify_inv ips i j hold y at_j) [
      | inl (ij, (w, was, is)) ↦
          let same : x ≡ w = some_inj (sym at ∙ ap (get_elem? ips) ij ∙ was) in
          (w, was, rw (sym same) held, ap (λ (q : Inode). q.dev) is, ap (λ (q : Inode). q.inum) is)
      | inr (ne, was) ↦ (y, was, p, refl, refl)
    ]

-- What `iget` promises.
abbrev pub Got : (dev inum : ℕ) → List Inode → List ℕ → Type 0
Got dev inum ips hs =
    (i : ℕ) × (ips' : List Inode) × (ip : Inode) × (iget dev inum ips ≡ done (i, ips'))
    × (get_elem? ips' i ≡ some ip)
    × (ip.dev ≡ dev)
    × (ip.inum ≡ inum)
    × Held ips' (i ∷ hs)
    × IsSole ips'

abbrev pub Unavailable : (dev inum : ℕ) → List Inode → Type 0
Unavailable dev inum ips =
    (iget dev inum ips ≡ panic "iget: no inodes")
    × ((j : ℕ) (x : Inode)
        → get_elem? ips j ≡ some x
        → (is_entry dev inum x ≡ false) × (is_free x ≡ false))

start-Held :
    (ips : List Inode) (hs : List ℕ) (dev inum i : ℕ)
    → count i hs ≡ 0
    → Held ips hs
    → Held (modify ips i (start dev inum)) (i ∷ hs)
start-Held ips hs dev inum i unheld c j g there =
    elim (modify_inv ips i j (start dev inum) g there) [
      | inl (ij, (x, was, is)) ↦
          let z : count j hs ≡ 0 = rw ij at unheld in
          let one : g.ref ≡ 1 = ap (λ (y : Inode). y.ref) is in
          let hit : (i == j) ≡ true = (==_iff i j).1 ij in rw (hit, z) one
      | inr (ne, was) ↦ ground (arith, c j g was)
    ]

start-IsSole :
    (ips : List Inode) (dev inum i : ℕ)
    → ((j : ℕ) (x : Inode) → get_elem? ips j ≡ some x → is_entry dev inum x ≡ false)
    → IsSole ips
    → IsSole (modify ips i (start dev inum))
start-IsSole ips dev inum i none_has u j k y z at_j at_k py pz e e' =
    elim (modify_inv ips i j (start dev inum) y at_j) [
      | inl (ij, (w, _, is)) ↦ elim (modify_inv ips i k (start dev inum) z at_k) [
        | inl (ik, _) ↦ sym ij ∙ ik
        | inr (_, was) ↦ absurd (
            clash k z was pz (sym e ∙ ap (λ (q : Inode). q.dev) is)
              (sym e' ∙ ap (λ (q : Inode). q.inum) is))
      ]
      | inr (_, was_j) ↦ elim (modify_inv ips i k (start dev inum) z at_k) [
        | inl (ik, (w, _, is)) ↦ absurd (
            clash j y was_j py (e ∙ ap (λ (q : Inode). q.dev) is)
              (e' ∙ ap (λ (q : Inode). q.inum) is))
        | inr (_, was_k) ↦ u j k y z was_j was_k py pz e e'
      ]
    ]
  where
    clash :
        (j : ℕ) (x : Inode) → get_elem? ips j ≡ some x → 0 < x.ref → x.dev ≡ dev → x.inum ≡ inum → ⊥
    clash j x at p d n =
        let f = none_has j x at in
        false≢true (sym (rw (lt→ltb 0 x.ref p, d, n, ==_refl dev, ==_refl inum) at f))

-- If every count in the table is the number of holders and no inode is in it twice, then `iget` answers
-- with the one entry for the inode, the counts are right with its new holder, and again no inode is
-- twice in the table; or it panics, which is where no entry is for the inode and all are in use.
pub iget-Got :
    (dev inum : ℕ) (ips : List Inode) (hs : List ℕ)
    → Held ips hs
    → IsSole ips
    → Got dev inum ips hs ⊎ Unavailable dev inum ips
unfolding iget
iget-Got dev inum ips hs c u = elim (Option-cases (find_index (is_entry dev inum) ips)) [
  | inr (i, found) ↦ inl (cached i (find_index-IsFirst (is_entry dev inum) ips i found) found)
  | inl none_found ↦ elim (Option-cases (find_index is_free ips)) [
    | inr (i, free) ↦ inl (fresh none_found i (find_index-IsFirst is_free ips i free) free)
    | inl full ↦ inr (
      iget_end-none dev inum (iget_loop dev inum 0 none ips) ips
          (iget_loop-entry dev inum ips ∙ none_found)
          (iget_loop-free dev inum ips none_found ∙ full),
      λ j x at. (
        find_index-none (is_entry dev inum) ips none_found j x at,
        find_index-none is_free ips full j x at,
      ),
    )
  ]
]
  where
    cached :
        (i : ℕ)
        → IsFirst (is_entry dev inum) ips i
        → find_index (is_entry dev inum) ips ≡ some i
        → Got dev inum ips hs
    cached i first found =
        let fields = is_entry-fields dev inum first.elem first.passes in
        (
          i,
          modify ips i hold,
          hold first.elem,
          iget_end-entry dev inum i (iget_loop dev inum 0 none ips) ips
              (iget_loop-entry dev inum ips ∙ found),
          get_elem?-modify_self ips i hold first.elem first.here,
          fields.1,
          fields.2,
          hold-Held ips hs i c,
          hold-IsSole ips i first.elem first.here fields.0 u,
        )

    fresh :
        find_index (is_entry dev inum) ips ≡ none
        → (i : ℕ) → IsFirst is_free ips i
        → find_index is_free ips ≡ some i
        → Got dev inum ips hs
    fresh none_found i first free = (
      i,
      modify ips i (start dev inum),
      start dev inum first.elem,
      iget_end-free dev inum i (iget_loop dev inum 0 none ips) ips
          (iget_loop-entry dev inum ips ∙ none_found)
          (iget_loop-free dev inum ips none_found ∙ free),
      get_elem?-modify_self ips i (start dev inum) first.elem first.here,
      refl,
      refl,
      start-Held ips hs dev inum i
          (sym (c i first.elem first.here) ∙ (==_iff first.elem.ref 0).0 first.passes) c,
      start-IsSole ips dev inum i (find_index-none (is_entry dev inum) ips none_found) u,
    )
