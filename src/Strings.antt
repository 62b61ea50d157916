-- ===== src/Strings.antt =====
-- string.c: blocks of memory, and C strings in memory.
pub mod Move
pub mod Text
mod Tests
use os_ass.Common.Int.{ℤ, pos, negsuc}
use os_ass.Common.Memory.{Memory, store_byte}
use mathlib.Core.Option
use os_ass.Common.{
  ℕ, zero, suc, ◌+◌, ◌-◌, ◌*◌, ◌/◌, ◌%◌, ◌^◌, ◌≤◌, ◌<◌, min, ◌≡◌, refl, sym, ap, ◌∙◌, ◌≢◌, ◌↔◌, ◌⊎◌,
  inl, inr, Bool, true, false, not, ◌&&◌, ◌||◌, Option, none, some, List, [], ◌∷◌, ◌++◌, map, arith,
  ltb, leb, ◌==◌, if◌then◌else◌, Bool-cases, Option-cases, ltb→lt, lt→ltb, ==_iff, ==_refl, length,
  get_elem?, get_or, set, replicate, length-append, length-map, length-set, length-replicate,
  get_elem?-set, get_or-set, get_elem?-lt-length, modify, length-modify, get_elem?-modify,
  get_elem?-append, modify-append, find_from, find_index, IsFirst, find_index-IsFirst,
  find_index-none, Outcome, done, panic, ◌>>=◌, done_inj, some_inj,
}

-- `while(n-- > 0) *d++ = *s++;`
unfoldable pub copy_up : (n d s : ℕ) → Memory → Memory
unfolding store_byte
copy_up zero d s m = m
copy_up (suc n) d s m = copy_up n (d + 1) (s + 1) (store_byte m d (m s))

-- `while(n-- > 0) *--d = *--s;`, with `d` and `s` the starts of the blocks
unfoldable pub copy_down : (n d s : ℕ) → Memory → Memory
unfolding store_byte
copy_down zero d s m = m
copy_down (suc n) d s m = copy_down n d s (store_byte m (d + n) (m (s + n)))

unfoldable pub memmove : (dst src n : ℕ) → Memory → Memory
memmove dst src n m =
    let down = copy_down n dst src m in
    let up = copy_up n dst src m in if ltb src dst && ltb dst (src + n) then down else up

-- The difference of two unsigned characters
abbrev pub difference : (a b : ℕ) → ℤ
difference a b = if leb b a then pos (a - b) else negsuc (b - a - 1)

unfoldable pub memcmp : Memory → (v1 v2 n : ℕ) → ℤ
memcmp m v1 v2 zero = pos 0
memcmp m v1 v2 (suc n) =
    let rest = memcmp m (v1 + 1) (v2 + 1) n in
    if m v1 == m v2 then rest else difference (m v1) (m v2)

unfoldable pub strncmp : Memory → (p q n : ℕ) → ℤ
strncmp m p q zero = pos 0
strncmp m p q (suc n) =
    let rest = strncmp m (p + 1) (q + 1) n in
    if not (m p == 0) && m p == m q then rest else difference (m p) (m q)

-- The second loop of `strncpy`
unfoldable pub pad : (n s : ℕ) → Memory → Memory
unfolding store_byte
pad zero s m = m
pad (suc n) s m = pad n (s + 1) (store_byte m s 0)

-- The first loop, up to a NUL, and then the second. `n` is not negative.
unfoldable pub strncpy : (s t n : ℕ) → Memory → Memory
unfolding store_byte
strncpy s t zero m = m
strncpy s t (suc n) m =
    let m' = store_byte m s (m t) in
    let rest = strncpy (s + 1) (t + 1) n m' in
    let zeros = pad n (s + 1) m' in if m t == 0 then zeros else rest

-- The loop of `safestrcpy` with `n` for the value of `--n` that it tests, and the NUL behind it.
unfoldable pub copy_text : (s t n : ℕ) → Memory → Memory
unfolding store_byte
copy_text s t zero m = store_byte m s 0
copy_text s t (suc n) m =
    let m' = store_byte m s (m t) in
    let rest = copy_text (s + 1) (t + 1) n m' in
    let ended = store_byte m' (s + 1) 0 in if m t == 0 then ended else rest

unfoldable pub safestrcpy : (s t : ℕ) (n : ℤ) → Memory → Memory
safestrcpy s t (negsuc n) m = m
safestrcpy s t (pos zero) m = m
safestrcpy s t (pos (suc n)) m = copy_text s t n m

-- The loop runs up to the NUL; `none` if there is none in `rounds` bytes.
unfoldable pub strlen : (rounds : ℕ) → Memory → (s : ℕ) → Option ℕ
strlen zero m s = none
strlen (suc r) m s =
    let rest = Option.map suc (strlen r m (s + 1)) in if m s == 0 then some 0 else rest
