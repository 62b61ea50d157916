-- ===== src/Strings/Tests.antt =====
-- Strings at concrete addresses.
use os_ass.Common.Int.{pos}
use os_ass.Common.Memory.{Memory}
use os_ass.Strings.{memmove, strncmp, strlen, safestrcpy}
use os_ass.Strings.Move.{moved, memmove-moved}
use os_ass.Strings.Text.{text, strncmp-text, safestrcpy-Bounded}
use os_ass.Common.{ℕ, ◌-◌, ◌<◌, ◌≡◌, refl, ◌↔◌, ◌⊎◌, inr, some, [], ◌∷◌, arith, length, get_or}

-- "hello" at 100 and "help" at 200.
abbrev memory : Memory
memory x =
    get_or (0x68 ∷ 0x65 ∷ 0x6C ∷ 0x6C ∷ 0x6F ∷ 0 ∷ []) (x - 100)
      (get_or (0x68 ∷ 0x65 ∷ 0x6C ∷ 0x70 ∷ 0 ∷ []) (x - 200) 0xFF)

memmove-moved_example : memmove 102 100 4 memory 104 ≡ moved 102 100 4 memory 104
memmove-moved_example = memmove-moved 102 100 4 memory 104

strncmp-text_example : (strncmp memory 100 200 3 ≡ pos 0) ↔ (text memory 100 3 ≡ text memory 200 3)
strncmp-text_example = strncmp-text memory 100 200 3

strlen_hello : strlen 10 memory 100 ≡ some 5
unfolding strlen
strlen_hello = refl

safestrcpy-Bounded_example :
    (text (safestrcpy 300 100 (pos 4) memory) 300 4 ≡ text memory 100 3)
    × (length (text (safestrcpy 300 100 (pos 4) memory) 300 4) < 4)
    × ((x : ℕ) → (x < 300) ⊎ (303 < x) → safestrcpy 300 100 (pos 4) memory x ≡ memory x)
safestrcpy-Bounded_example = safestrcpy-Bounded 300 100 3 memory (inr (omega arith))
