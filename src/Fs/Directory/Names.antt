-- ===== src/Fs/Directory/Names.antt =====
-- Names in directory entries, as texts.
use os_ass.Common.Int.{ℤ, pos, negsuc}
use os_ass.Common.Memory.{Memory}
use mathlib.Core.Bool.{false≢true}
use native.Mathlib.Numerals.{unary_clauses}
use os_ass.Strings.Text.{text, strncmp-text}
use os_ass.Fs.Path.{dirsiz}
use os_ass.Fs.Inode.{load_half}
use os_ass.Fs.Content.{window}
use os_ass.Fs.Directory.{entry_size, beside, namecmp, is_zero, entry_of, is_named}
use os_ass.Common.{
  ℕ, zero, suc, ◌+◌, ◌-◌, ◌*◌, ◌<◌, ◌≡◌, refl, sym, ap, ◌∙◌, ◌≢◌, ◌↔◌, ◌⊎◌, inl, inr, true, false,
  arith, ltb, ◌==◌, Bool-cases, ==_iff, length, get_or,
}

text-same :
    (m m' : Memory) (p q n : ℕ)
    → ((i : ℕ) → i < n → m (p + i) ≡ m' (q + i))
    → text m p n ≡ text m' q n
unfolding text
text-same m m' p q zero same = refl
text-same m m' p q (suc n) same =
    let here : m p ≡ m' q = simp unary_clauses at (same 0 (omega arith)) in
    rw (here, text-same m m' (p + 1) (q + 1) n (λ i h. shifted i (same (suc i) (omega arith)))) refl
  where
    shifted : (i : ℕ) → m (p + suc i) ≡ m' (q + suc i) → m (p + 1 + i) ≡ m' (q + 1 + i)
    shifted i e =
        let a : p + 1 + i ≡ p + suc i = omega arith in
        let b : q + 1 + i ≡ q + suc i = omega arith in rw (a, b) e

-- The name at `a` in a directory is this one, of an entry in use.
abbrev pub Names : (name : Memory) → (dir : Memory) → (a : ℕ) → Type 0
Names name dir a = (load_half dir a ≢ 0) × (text name 0 dirsiz ≡ text dir (a + 2) dirsiz)

namecmp-text : (s t : Memory) → (namecmp s t ≡ pos 0) ↔ (text s 0 dirsiz ≡ text t 0 dirsiz)
unfolding namecmp
namecmp-text s t = rw (sym left, sym right) (strncmp-text (beside s t) 0 dirsiz dirsiz)
  where
    left : text (beside s t) 0 dirsiz ≡ text s 0 dirsiz
    left = text-same (beside s t) s 0 0 dirsiz (λ i h. ground arith)

    second : (i : ℕ) → beside s t (dirsiz + i) ≡ t (0 + i)
    second i =
        let low : ltb (dirsiz + i) dirsiz ≡ false = ground arith in
        let at : dirsiz + i - dirsiz ≡ 0 + i = omega arith in rw (low, at) refl

    right : text (beside s t) dirsiz dirsiz ≡ text t 0 dirsiz
    right = text-same (beside s t) t dirsiz 0 dirsiz (λ i h. second i)

is_zero_iff : (z : ℤ) → (is_zero z ≡ true) ↔ (z ≡ pos 0)
is_zero_iff (pos n) = (λ h. ap pos ((==_iff n 0).0 h), λ h. ground arith)
is_zero_iff (negsuc n) = (λ h. absurd (false≢true h), λ h. ground arith)

get_or-window : (m : Memory) (a n i : ℕ) → i < n → get_or (window m a n) i 0 ≡ m (a + i)
get_or-window m a zero i h = absurd (omega arith)
get_or-window m a (suc n) zero h = let e : a + 0 ≡ a = omega arith in sym (ap m e)
get_or-window m a (suc n) (suc i) h = get_or-window m (suc a) n i (omega arith) ∙ ap m (next a i)
  where
    next : (a i : ℕ) → suc a + i ≡ a + suc i
    next a i = omega arith

pub length-window : (m : Memory) (a n : ℕ) → length (window m a n) ≡ n
length-window m a zero = refl
length-window m a (suc n) = ap suc (length-window m (suc a) n)

is_named-copied :
    (name dir de : Memory) (a : ℕ)
    → ((i : ℕ) → i < 16 → de i ≡ dir (a + i))
    → (is_named name de ≡ true) ↔ Names name dir a
is_named-copied name dir de a byte = (sound, complete)
  where
    inum : load_half de 0 ≡ load_half dir a
    inum =
        let e : a + 0 ≡ a = omega arith in rw (byte 0 (omega arith), byte 1 (omega arith), e) refl

    at : (i : ℕ) → i < 14 → de (2 + (0 + i)) ≡ dir (a + 2 + i)
    at i h =
        let e : a + (2 + (0 + i)) ≡ a + 2 + i = omega arith in
        byte (2 + (0 + i)) (omega arith) ∙ ap dir e

    same : text (λ x. de (2 + x)) 0 dirsiz ≡ text dir (a + 2) dirsiz
    same = text-same (λ x. de (2 + x)) dir 0 (a + 2) dirsiz at

    sound : is_named name de ≡ true → Names name dir a
    sound h = elim (Bool-cases (load_half de 0 == 0)) [
      | inl z ↦ absurd (false≢true (rw z at h))
      | inr nz ↦ (
        λ e. false≢true (sym nz ∙ (==_iff (load_half de 0) 0).1 (inum ∙ e)),
        (namecmp-text name (λ x. de (2 + x))).0
              ((is_zero_iff (namecmp name (λ x. de (2 + x)))).0 (rw nz at h))
            ∙ same,
      )
    ]

    complete : Names name dir a → is_named name de ≡ true
    complete (ne, e) =
        let nz : (load_half de 0 == 0) ≡ false = nonzero (Bool-cases (load_half de 0 == 0)) ne in
        rw nz (
          (is_zero_iff (namecmp name (λ x. de (2 + x)))).1
            ((namecmp-text name (λ x. de (2 + x))).1 (e ∙ sym same)))
      where
        nonzero :
            ((load_half de 0 == 0) ≡ true) ⊎ ((load_half de 0 == 0) ≡ false)
            → load_half dir a ≢ 0
            → (load_half de 0 == 0) ≡ false
        nonzero (inl z) ne = absurd (ne (sym inum ∙ (==_iff (load_half de 0) 0).0 z))
        nonzero (inr nz) ne = nz

-- The entry that a read at `a` brings has the name exactly if the directory has it there.
pub is_named-Names :
    (name dir : Memory) (a : ℕ)
    → (is_named name (entry_of (window dir a entry_size)) ≡ true) ↔ Names name dir a
is_named-Names name dir a =
    is_named-copied name dir (entry_of (window dir a entry_size)) a
      (λ i h. get_or-window dir a 16 i h)

pub load_half-window :
    (dir : Memory) (a : ℕ) → load_half (entry_of (window dir a entry_size)) 0 ≡ load_half dir a
load_half-window dir a = let e : suc a ≡ a + 1 = omega arith in ap (λ x. dir a + 256 * dir x) e
