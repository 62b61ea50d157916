-- ===== src/Common/Memory.antt =====
-- Byte-addressed memory with little-endian 32-bit words.
use Prim.Native.Nat.{ℕ, zero, suc, ◌+◌, ◌-◌, ◌*◌, ◌/◌, ◌%◌, ◌^◌, ◌≤◌, ◌<◌}
use mathlib.Core.Path.{◌≡◌, refl, ap₂, ◌∙◌}
use mathlib.Core.Logic.{◌⊎◌, inl, inr}
use mathlib.Core.List.{List, [], ◌∷◌}
use native.Mathlib.Omega.{arith}
use os_ass.Common.Tests.{◌==◌, if◌then◌else◌}
use os_ass.Common.Lists.{length}

abbrev pub Memory : Type 0
Memory = ℕ → ℕ

-- `uint` subtraction.
abbrev pub sub32 : ℕ → ℕ → ℕ
sub32 a b = (a + 2 ^ 32 - b) % 2 ^ 32

unfoldable pub store_byte : Memory → ℕ → ℕ → Memory
store_byte m a v x = if x == a then v else m x

-- `memmove` into memory from elsewhere.
unfoldable pub store_bytes : Memory → ℕ → List ℕ → Memory
unfolding store_byte
store_bytes m a [] = m
store_bytes m a (v ∷ vs) = store_bytes (store_byte m a v) (a + 1) vs

unfoldable pub store_word : Memory → ℕ → ℕ → Memory
store_word m a w x =
    if x == a
    then w % 256
    else if x == a + 1
    then w / 256 % 256
    else if x == a + 2
    then w / 65536 % 256
    else if x == a + 3
    then w / 16777216 % 256
    else m x

unfoldable pub load_word : Memory → ℕ → ℕ
load_word m a = m a + 256 * m (a + 1) + 65536 * m (a + 2) + 16777216 * m (a + 3)

unfoldable pub store_words : Memory → ℕ → List ℕ → Memory
store_words m a [] = m
store_words m a (w ∷ ws) = store_words (store_word m a w) (a + 4) ws

unfoldable pub load_words : Memory → ℕ → ℕ → List ℕ
load_words m a zero = []
load_words m a (suc n) = load_word m a ∷ load_words m (a + 4) n

pub load_word-store_word : (m : Memory) (a w : ℕ) → w < 2 ^ 32 → load_word (store_word m a w) a ≡ w
unfolding load_word store_word
load_word-store_word m a w h = ground arith

-- Two memories agree on the `n` bytes from `a`.
abbrev pub AgreeOn : ℕ → ℕ → Memory → Memory → Type 0
AgreeOn a n m m' = (x : ℕ) → a ≤ x → x < a + n → m' x ≡ m x

pub load_word-AgreeOn : (m m' : Memory) (a : ℕ) → AgreeOn a 4 m m' → load_word m' a ≡ load_word m a
unfolding load_word
load_word-AgreeOn m m' a same = omega (
  arith,
  same a (omega arith) (omega arith),
  same (a + 1) (omega arith) (omega arith),
  same (a + 2) (omega arith) (omega arith),
  same (a + 3) (omega arith) (omega arith),
)

pub load_words-AgreeOn :
    (m m' : Memory) (a n : ℕ) → AgreeOn a (4 * n) m m' → load_words m' a n ≡ load_words m a n
unfolding load_words
load_words-AgreeOn m m' a zero same = refl
load_words-AgreeOn m m' a (suc n) same =
    ap₂ ◌∷◌ (load_word-AgreeOn m m' a (λ x p q. same x p (omega arith)))
      (load_words-AgreeOn m m' (a + 4) n (λ x p q. same x (omega arith) (omega arith)))

pub store_word-outside : (m : Memory) (a w x : ℕ) → (x < a) ⊎ (a + 4 ≤ x) → store_word m a w x ≡ m x
unfolding store_word
store_word-outside m a w x (inl h) = ground arith
store_word-outside m a w x (inr h) = ground arith

pub store_words-outside :
    (m : Memory) (a : ℕ) (ws : List ℕ) (x : ℕ)
    → (x < a) ⊎ (a + 4 * length ws ≤ x)
    → store_words m a ws x ≡ m x
unfolding store_words
store_words-outside m a [] x h = refl
store_words-outside m a (w ∷ ws) x (inl h) =
    store_words-outside (store_word m a w) (a + 4) ws x (inl (omega arith))
    ∙ store_word-outside m a w x (inl h)
store_words-outside m a (w ∷ ws) x (inr h) =
    store_words-outside (store_word m a w) (a + 4) ws x (inr (omega arith))
    ∙ store_word-outside m a w x (inr (omega arith))

abbrev pub AllWords : List ℕ → Type 0
AllWords [] = Unit
AllWords (w ∷ ws) = (w < 2 ^ 32) × AllWords ws

pub load_words-store_words :
    (m : Memory) (a : ℕ) (ws : List ℕ)
    → AllWords ws
    → load_words (store_words m a ws) a (length ws) ≡ ws
unfolding load_words store_words
load_words-store_words m a [] h = refl
load_words-store_words m a (w ∷ ws) (h, hs) =
    ap₂ ◌∷◌
      (load_word-AgreeOn (store_word m a w) (store_words (store_word m a w) (a + 4) ws) a
          (λ x p q. store_words-outside (store_word m a w) (a + 4) ws x (inl (omega arith)))
        ∙ load_word-store_word m a w h)
      (load_words-store_words (store_word m a w) (a + 4) ws hs)
