-- ===== src/Fs/Blocks/Bitmap.antt =====
-- The bitmap as the set of blocks in use.
use Prim.Native.Nat.{bit_xor}
use os_ass.Common.Bits.{bit, bit-bit_or, bit-bit_xor, bit-bit_and, bit_test}
use os_ass.Common.Memory.{Memory}
use os_ass.Fs.{Fs, bpb}
use os_ass.Fs.Blocks.{bblock, is_clear, set_bit, clear_bit}
use os_ass.Common.{
  ℕ, zero, suc, ◌/◌, ◌%◌, ◌^◌, ◌<◌, ◌≡◌, refl, Bool, true, false, not, arith, ◌==◌, if◌then◌else◌,
}

-- Bit `i` of a block.
abbrev pub bit_of : Memory → ℕ → Bool
bit_of m i = bit (m (i / 8)) (i % 8)

-- Block `c` is in use.
abbrev pub used : Fs → ℕ → Bool
used s c = bit_of (s.blocks (bblock s c)) (c % bpb)

pub is_clear_lem : (m : Memory) (i : ℕ) → is_clear m i ≡ not (bit_of m i)
is_clear_lem m i = bit_test (m (i / 8)) (i % 8)

pub bit_of-set_bit :
    (m : Memory) (i j : ℕ) → bit_of (set_bit i m) j ≡ (if i == j then true else bit_of m j)
bit_of-set_bit m i j = ground (arith, bit-bit_or (m (i / 8)) (i % 8) (j % 8))

all_ones : (j : ℕ) → j < 8 → bit 0xFF j ≡ true
unfolding bit
all_ones zero h = refl
all_ones (suc zero) h = refl
all_ones (suc (suc zero)) h = refl
all_ones (suc (suc (suc zero))) h = refl
all_ones (suc (suc (suc (suc zero)))) h = refl
all_ones (suc (suc (suc (suc (suc zero))))) h = refl
all_ones (suc (suc (suc (suc (suc (suc zero)))))) h = refl
all_ones (suc (suc (suc (suc (suc (suc (suc zero))))))) h = refl
all_ones (suc (suc (suc (suc (suc (suc (suc (suc j)))))))) h = absurd (omega arith)

pub bit_of-clear_bit :
    (m : Memory) (i j : ℕ) → bit_of (clear_bit i m) j ≡ (if i == j then false else bit_of m j)
bit_of-clear_bit m i j = ground (
  arith,
  bit-bit_and (m (i / 8)) (bit_xor 0xFF (2 ^ (i % 8))) (j % 8),
  bit-bit_xor 0xFF (i % 8) (j % 8),
  all_ones (j % 8) (omega arith),
)
