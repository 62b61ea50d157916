-- ===== src/Fs/Table/Put.antt =====
-- `iput`: a holder gives up an inode.
use os_ass.Common.{bind_done}
use mathlib.Core.Path.{subst}
use os_ass.Fs.{Fs}
use os_ass.Fs.Blocks.{bfree}
use os_ass.Fs.Inode.{Inode, addr, set_addr, free_direct, free_words, free_indirect, itrunc, iupdate}
use os_ass.Fs.Table.{State, is_last, free_inode, forget, drop_hold, iput}
use os_ass.Fs.Table.Holders.{Held, IsSole}
use os_ass.Common.{
  ℕ, zero, suc, ◌-◌, ◌<◌, ◌≡◌, refl, sym, ap, ◌∙◌, ◌⊎◌, inl, inr, true, false, some, List, ◌∷◌,
  arith, ◌==◌, if◌then◌else◌, Bool-cases, Option-cases, get_elem?, modify, modify_inv, Outcome,
  done, ◌>>=◌, done_inj, some_inj,
}

-- What freeing the content of an inode does not change.
module _ (field : Inode → ℕ) (address : (j a : ℕ) (ip : Inode) → field (set_addr j a ip) ≡ field ip)
    (emptied_keeps : (ip : Inode) → field (record ip { size = 0 }) ≡ field ip) where
  free_direct_keeps :
      (r i : ℕ) (s : Fs) (ip : Inode) (q : Inode × Fs)
      → free_direct r i s ip ≡ done q
      → field q.0 ≡ field ip
  unfolding free_direct
  free_direct_keeps zero i s ip q e = sym (ap (λ (p : Inode × Fs). field p.0) (done_inj e))
  free_direct_keeps (suc r) i s ip q e = elim (Bool-cases (addr ip i == 0)) [
    | inl z ↦ free_direct_keeps r (suc i) s ip q (rw (free_direct, z) at e)
    | inr nz ↦
        let (s', _, e') =
          bind_done (bfree s (addr ip i)) (λ s'. free_direct r (suc i) s' (set_addr i 0 ip)) q
            (rw (free_direct, nz) at e) in
        free_direct_keeps r (suc i) s' (set_addr i 0 ip) q e' ∙ address i 0 ip
  ]

  free_indirect_keeps :
      (s : Fs) (ip : Inode) (q : Inode × Fs) → free_indirect s ip ≡ done q → field q.0 ≡ field ip
  unfolding free_indirect
  free_indirect_keeps s ip q e = elim (Bool-cases (addr ip 12 == 0)) [
    | inl z ↦ sym (ap (λ (p : Inode × Fs). field p.0) (done_inj (rw (free_indirect, z) at e)))
    | inr nz ↦
        let (s', _, e') =
          bind_done (free_words 128 0 (addr ip 12) s)
            (λ s'. bfree s' (addr ip 12) >>= λ s''. done (set_addr 12 0 ip, s'')) q
            (rw (free_indirect, nz) at e) in
        let (s'', _, e'') =
          bind_done (bfree s' (addr ip 12)) (λ s''. done (set_addr 12 0 ip, s'')) q e' in
        sym (ap (λ (p : Inode × Fs). field p.0) (done_inj e'')) ∙ address 12 0 ip
  ]

  itrunc_keeps :
      (s : Fs) (ip : Inode) (q : Inode × Fs) → itrunc s ip ≡ done q → field q.0 ≡ field ip
  unfolding itrunc
  itrunc_keeps s ip q e =
      let emptied = λ (q : Inode × Fs).
        done (record (q.0) { size = 0 }, iupdate (record (q.0) { size = 0 }) q.1) in
      let (p, from, e') =
        bind_done (free_direct 12 0 s ip) (λ p. free_indirect p.1 p.0 >>= emptied) q e in
      let (q', from', e'') = bind_done (free_indirect p.1 p.0) emptied q e' in
      sym (ap (λ (p : Inode × Fs). field p.0) (done_inj e''))
      ∙ emptied_keeps q'.0
      ∙ free_indirect_keeps p.1 p.0 q' from'
      ∙ free_direct_keeps 12 0 s ip p from

-- One holder less, in the table.
pub modify-Held :
    (ips : List Inode) (hs : List ℕ) (i : ℕ) (f : Inode → Inode)
    → ((x : Inode) → (f x).ref ≡ x.ref - 1)
    → Held ips (i ∷ hs)
    → Held (modify ips i f) hs
modify-Held ips hs i f less c j g there = elim (modify_inv ips i j f g there) [
  | inl (ij, (x, was, is)) ↦ ground (arith, ap (λ (y : Inode). y.ref) is, less x, c j x was)
  | inr (ne, was) ↦ ground (arith, c j g was)
]

-- As many holders as before.
modify-Held_same :
    (ips : List Inode) (hs : List ℕ) (i : ℕ) (f : Inode → Inode)
    → ((x : Inode) → get_elem? ips i ≡ some x → (f x).ref ≡ x.ref)
    → Held ips hs
    → Held (modify ips i f) hs
modify-Held_same ips hs i f same c j g there = elim (modify_inv ips i j f g there) [
  | inl (ij, (x, was, is)) ↦
      ap (λ (y : Inode). y.ref) is ∙ same x (ap (get_elem? ips) ij ∙ was) ∙ c j x was
  | inr (ne, was) ↦ c j g was
]

-- An entry that no longer stands for another inode than before.
pub modify-IsSole :
    (ips : List Inode) (i : ℕ) (f : Inode → Inode)
    → ((x : Inode)
        → get_elem? ips i ≡ some x
        → 0 < (f x).ref
        → (0 < x.ref) × ((f x).dev ≡ x.dev) × ((f x).inum ≡ x.inum))
    → IsSole ips
    → IsSole (modify ips i f)
modify-IsSole ips i f same u j k y z at_j at_k py pz e e' =
    let (y', was_j, py', yd, yn) = before j y at_j py in
    let (z', was_k, pz', zd, zn) = before k z at_k pz in
    u j k y' z' was_j was_k py' pz' (sym yd ∙ e ∙ zd) (sym yn ∙ e' ∙ zn)
  where
    before :
        (j : ℕ) (y : Inode)
        → get_elem? (modify ips i f) j ≡ some y
        → 0 < y.ref
        → (w : Inode) × (get_elem? ips j ≡ some w)
          × (0 < w.ref)
          × (y.dev ≡ w.dev)
          × (y.inum ≡ w.inum)
    before j y at_j p = elim (modify_inv ips i j f y at_j) [
      | inl (ij, (x, was, is)) ↦
          let s = same x (ap (get_elem? ips) ij ∙ was) (subst (λ (v : Inode). 0 < v.ref) is p) in
          (x, was, s.0, ap (λ (q : Inode). q.dev) is ∙ s.1, ap (λ (q : Inode). q.inum) is ∙ s.2)
      | inr (ne, was) ↦ (y, was, p, refl, refl)
    ]

abbrev Right : List Inode → List ℕ → Type 0
Right ips hs = Held ips hs × IsSole ips

-- The entry of an inode whose content has been freed is held as before.
free_inode-Right :
    (s : State) (i : ℕ) (ip : Inode) (hs : List ℕ) (t : State)
    → get_elem? s.inodes i ≡ some ip
    → Right s.inodes hs
    → free_inode s i ip ≡ done t
    → Right t.inodes hs
unfolding free_inode
free_inode-Right s i ip hs t at (c, u) e =
    let (q, from, e') = bind_done (itrunc s.fs ip) _ t e in
    let ref = itrunc_keeps (λ v. v.ref) (λ j a v. refl) (λ v. refl) s.fs ip q from in
    let dev = itrunc_keeps (λ v. v.dev) (λ j a v. refl) (λ v. refl) s.fs ip q from in
    let inum = itrunc_keeps (λ v. v.inum) (λ j a v. refl) (λ v. refl) s.fs ip q from in
    let here = λ (x : Inode) (was : get_elem? s.inodes i ≡ some x). some_inj (sym at ∙ was) in
    subst (λ (x : State). Right x.inodes hs) (done_inj e')
      (
        modify-Held_same s.inodes hs i _ (λ x was. ref ∙ ap (λ (v : Inode). v.ref) (here x was)) c,
        modify-IsSole s.inodes i _
            (λ x was p. (
              subst (λ n. 0 < n) (ref ∙ ap (λ (v : Inode). v.ref) (here x was)) p,
              dev ∙ ap (λ (v : Inode). v.dev) (here x was),
              inum ∙ ap (λ (v : Inode). v.inum) (here x was),
            ))
            u,
      )

-- Let every count in the table be the number of holders, and no inode be in it twice, and let `iput` by
-- one of the holders return. If it finds other references, a link, or an inode that was never read, the
-- counts are right without this holder. If it frees the inode, and what the others do meanwhile keeps
-- the counts right for the holders that there are then, with this one among them, they are right for
-- those without this one. Either way no inode is in the table twice.
pub iput-Held :
    (between : State → State) (s : State) (i : ℕ) (hs hs' : List ℕ) (s' : State)
    → Held s.inodes (i ∷ hs)
    → IsSole s.inodes
    → ((t : State)
        → Held t.inodes (i ∷ hs)
        → IsSole t.inodes
        → Held (between t).inodes (i ∷ hs') × IsSole (between t).inodes)
    → iput between s i ≡ done s'
    → (ip : Inode) × (get_elem? s.inodes i ≡ some ip)
      × (((is_last ip ≡ false) × Held s'.inodes hs) ⊎ ((is_last ip ≡ true) × Held s'.inodes hs'))
      × IsSole s'.inodes
unfolding iput
iput-Held between s i hs hs' s' c u keep e = elim (Option-cases (get_elem? s.inodes i)) [
  | inl null ↦ absurd (ground (arith, rw (null, iput) at e))
  | inr (ip, at) ↦ let (held, sole) = entry ip at (rw (at, iput) at e) in (ip, at, held, sole)
]
  where
    freed : State → Outcome State
    freed t = done (record (between t) { inodes = modify (between t).inodes i forget })

    entry :
        (ip : Inode)
        → get_elem? s.inodes i ≡ some ip
        → (if is_last ip
            then (free_inode s i ip >>= freed)
            else done (record s { inodes = modify s.inodes i drop_hold }))
          ≡ done s'
        → (((is_last ip ≡ false) × Held s'.inodes hs) ⊎ ((is_last ip ≡ true) × Held s'.inodes hs'))
          × IsSole s'.inodes
    entry ip at e = elim (Bool-cases (is_last ip)) [
      | inl last ↦
          let (t, from, e') = bind_done (free_inode s i ip) freed s' (rw last at e) in
          let (c', u') = free_inode-Right s i ip (i ∷ hs) t at (c, u) from in
          let (c'', u'') = keep t c' u' in
          subst
            (λ (x : State).
              (((is_last ip ≡ false) × Held x.inodes hs)
                ⊎ ((is_last ip ≡ true) × Held x.inodes hs'))
              × IsSole x.inodes)
            (done_inj e')
            (
              inr (last, modify-Held (between t).inodes hs' i forget (λ x. refl) c''),
              modify-IsSole (between t).inodes i forget (λ x was p. (omega arith, refl, refl)) u'',
            )
      | inr kept ↦
          subst
            (λ (x : State).
              (((is_last ip ≡ false) × Held x.inodes hs)
                ⊎ ((is_last ip ≡ true) × Held x.inodes hs'))
              × IsSole x.inodes)
            (done_inj (rw kept at e))
            (
              inl (kept, modify-Held s.inodes hs i drop_hold (λ x. refl) c),
              modify-IsSole s.inodes i drop_hold (λ x was p. (omega arith, refl, refl)) u,
            )
    ]
