-- ===== src/Fs/Blocks.antt =====
-- fs.c: the allocator of disk blocks, a bitmap with a bit for each block.
pub mod Bitmap
pub mod Scan
pub mod Alloc
use Prim.Native.Nat.{bit_or, bit_and, bit_xor}
use os_ass.Common.Memory.{Memory}
use os_ass.Fs.{Fs, Blocks, bpb, update, store_byte_at, readsb}
use mathlib.Core.Option
use os_ass.Common.{
  ℕ, zero, suc, ◌+◌, ◌-◌, ◌*◌, ◌/◌, ◌%◌, ◌^◌, ◌≤◌, ◌<◌, min, ◌≡◌, refl, sym, ap, ◌∙◌, ◌≢◌, ◌↔◌, ◌⊎◌,
  inl, inr, Bool, true, false, not, ◌&&◌, ◌||◌, Option, none, some, List, [], ◌∷◌, ◌++◌, map, arith,
  ltb, leb, ◌==◌, if◌then◌else◌, Bool-cases, Option-cases, ltb→lt, lt→ltb, ==_iff, ==_refl, length,
  get_elem?, get_or, set, replicate, length-append, length-map, length-set, length-replicate,
  get_elem?-set, get_or-set, get_elem?-lt-length, modify, length-modify, get_elem?-modify,
  get_elem?-append, modify-append, find_from, find_index, IsFirst, find_index-IsFirst,
  find_index-none, Outcome, done, panic, ◌>>=◌, done_inj, some_inj,
}

unfoldable pub bzero : ℕ → Fs → Fs
bzero bno s = update bno (λ m x. if ltb x 512 then 0 else m x) s

-- `BBLOCK(b, sb)`
abbrev pub bblock : Fs → ℕ → ℕ
bblock s b = b / bpb + s.sb.bmapstart

-- `(bp->data[bi/8] & (1 << (bi % 8))) == 0`
abbrev pub is_clear : Memory → ℕ → Bool
is_clear m bi = bit_and (m (bi / 8)) (2 ^ (bi % 8)) == 0

-- The inner loop of `balloc`, from bit `bi` on in the map's block for `b`.
unfoldable pub scan_bits : (rounds bi : ℕ) → Fs → (b : ℕ) → Option ℕ
scan_bits zero bi s b = none
scan_bits (suc r) bi s b =
    let rest = scan_bits r (suc bi) s b in
    if ltb (b + bi) s.sb.size
    then if is_clear (s.blocks (bblock s b)) bi then some bi else rest
    else none

-- The outer loop, one block of the map after the other; `none` is where it ends without a free block.
unfoldable pub scan_map : (rounds b : ℕ) → Fs → Option (ℕ × ℕ)
scan_map zero b s = none
scan_map (suc r) b s = elim (ltb b s.sb.size) [
  | true ↦ elim (scan_bits bpb 0 s b) [ some bi ↦ some (b, bi) | none ↦ scan_map r (b + bpb) s ]
  | false ↦ none
]

-- `bp->data[bi/8] |= m`, and `&= ~m` with the complement within a byte
abbrev pub set_bit : ℕ → Memory → Memory
set_bit bi m = store_byte_at (bi / 8) (bit_or (m (bi / 8)) (2 ^ (bi % 8))) m

abbrev pub clear_bit : ℕ → Memory → Memory
clear_bit bi m = store_byte_at (bi / 8) (bit_and (m (bi / 8)) (bit_xor 0xFF (2 ^ (bi % 8)))) m

-- The outer loop takes a round for each block of the map, `size / BPB + 1` at most.
unfoldable pub balloc : Fs → Outcome (ℕ × Fs)
balloc s = elim (scan_map (s.sb.size / bpb + 1) 0 s) [
  | none ↦ panic "balloc: out of blocks"
  | some (b, bi) ↦ done (b + bi, bzero (b + bi) (update (bblock s b) (set_bit bi) s))
]

unfoldable pub bfree : Fs → ℕ → Outcome Fs
bfree s b =
    let s' = record s { sb = readsb s.blocks } in
    if is_clear (s.blocks (bblock s' b)) (b % bpb)
    then panic "freeing free block"
    else done (update (bblock s' b) (clear_bit (b % bpb)) s')
