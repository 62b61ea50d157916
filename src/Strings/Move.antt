-- ===== src/Strings/Move.antt =====
-- `memmove` on blocks that may overlap.
use os_ass.Common.Memory.{Memory, store_byte}
use os_ass.Strings.{copy_up, copy_down, memmove}
use os_ass.Common.{
  ℕ, zero, suc, ◌+◌, ◌-◌, ◌≤◌, ◌<◌, ◌≡◌, ◌∙◌, ◌⊎◌, inl, inr, true, false, ◌&&◌, arith, ltb, leb,
  if◌then◌else◌, Bool-cases,
}

-- The block at `dst` holds what the block at `src` held, and all else is as before.
abbrev pub moved : (dst src n : ℕ) → Memory → Memory
moved dst src n m x = if leb dst x && ltb x (dst + n) then m (src + (x - dst)) else m x

copy_up-moved :
    (n d s : ℕ) (m : Memory) (x : ℕ) → (d ≤ s) ⊎ (s + n ≤ d) → copy_up n d s m x ≡ moved d s n m x
unfolding copy_up store_byte
copy_up-moved zero d s m x h = ground arith
copy_up-moved (suc n) d s m x h =
    copy_up-moved n (d + 1) (s + 1) (store_byte m d (m s)) x (omega arith) ∙ last_bytes
  where
    same : d < x → s + 1 + (x - (d + 1)) ≡ s + (x - d)
    same lt = omega arith

    last_bytes : moved (d + 1) (s + 1) n (store_byte m d (m s)) x ≡ moved d s (suc n) m x
    last_bytes = ground (arith, same)

copy_down-moved : (n d s : ℕ) (m : Memory) (x : ℕ) → s < d → copy_down n d s m x ≡ moved d s n m x
unfolding copy_down store_byte
copy_down-moved zero d s m x h = ground arith
copy_down-moved (suc n) d s m x h = copy_down-moved n d s _ x h ∙ ground arith

-- `memmove` copies a block as it was before the call, also where source and destination overlap, and
-- changes no byte outside the destination.
pub memmove-moved :
    (dst src n : ℕ) (m : Memory) (x : ℕ) → memmove dst src n m x ≡ moved dst src n m x
unfolding memmove
memmove-moved dst src n m x = elim (Bool-cases (ltb src dst && ltb dst (src + n))) [
  | inl over ↦ rw over (copy_down-moved n dst src m x (below over))
  | inr apart ↦ rw apart (copy_up-moved n dst src m x (clear apart))
]
  where
    below : (ltb src dst && ltb dst (src + n)) ≡ true → src < dst
    below h = ground arith

    clear : (ltb src dst && ltb dst (src + n)) ≡ false → (dst ≤ src) ⊎ (src + n ≤ dst)
    clear h = ground arith
