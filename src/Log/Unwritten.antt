-- ===== src/Log/Unwritten.antt =====
-- The blocks that the operations under way have written, and those that they may still write.
use mathlib.Core.Path.{subst}
use os_ass.Common.{
  ℕ, suc, ◌+◌, ◌-◌, ◌*◌, ◌≤◌, ◌<◌, ◌≡◌, refl, ap, inl, inr, Bool, true, false, ◌||◌, List, [], ◌∷◌,
  ◌++◌, arith, ◌==◌, if◌then◌else◌, Bool-cases, ==_iff, length, get_or,
}
use os_ass.Log.{Log, max_op_blocks}

-- What an operation may write: fewer blocks than MAXOPBLOCKS.
abbrev pub op_blocks : ℕ
op_blocks = max_op_blocks - 1

abbrev pub is_in : ℕ → List ℕ → Bool
is_in b [] = false
is_in b (x ∷ w) = x == b || is_in b w

-- The different blocks that an operation has written, after one more write.
abbrev pub add_block : ℕ → List ℕ → List ℕ
add_block b w = if is_in b w then w else b ∷ w

-- How many more all operations may write, by what each has written so far.
abbrev pub unwritten : List (List ℕ) → ℕ
unwritten [] = 0
unwritten (w ∷ ws) = (op_blocks - length w) + unwritten ws

pub unwritten-bound : (ws : List (List ℕ)) → unwritten ws ≤ op_blocks * length ws
unwritten-bound [] = omega arith
unwritten-bound (w ∷ ws) = omega (arith, unwritten-bound ws)

pub unwritten-middle :
    (xs : List (List ℕ)) (w : List ℕ) (ys : List (List ℕ))
    → unwritten (xs ++ w ∷ ys) ≡ (op_blocks - length w) + unwritten (xs ++ ys)
unwritten-middle [] w ys = refl
unwritten-middle (x ∷ xs) w ys = omega (arith, unwritten-middle xs w ys)

pub length-middle :
    (xs : List (List ℕ)) (w : List ℕ) (ys : List (List ℕ))
    → length (xs ++ w ∷ ys) ≡ suc (length (xs ++ ys))
length-middle [] w ys = refl
length-middle (x ∷ xs) w ys = ap suc (length-middle xs w ys)

-- The log has an entry for the block.
abbrev pub HasEntry : Log → ℕ → Type 0
HasEntry l b = (k : ℕ) × (k < l.n) × (get_or l.block k 0 ≡ b)

-- It has one for all that an operation has written, and for all that all have.
abbrev pub Holds : Log → List ℕ → Type 0
Holds l w = (b : ℕ) → is_in b w ≡ true → HasEntry l b

abbrev pub HoldsAll : Log → List (List ℕ) → Type 0
HoldsAll l [] = Unit
HoldsAll l (w ∷ ws) = Holds l w × HoldsAll l ws

pub HoldsAll-map :
    (l l' : Log) (ws : List (List ℕ))
    → ((b : ℕ) → HasEntry l b → HasEntry l' b)
    → HoldsAll l ws
    → HoldsAll l' ws
HoldsAll-map l l' [] f h = tt
HoldsAll-map l l' (w ∷ ws) f (h, hs) = (λ b i. f b (h b i), HoldsAll-map l l' ws f hs)

pub HoldsAll-take :
    (l : Log) (xs : List (List ℕ)) (w : List ℕ) (ys : List (List ℕ))
    → HoldsAll l (xs ++ w ∷ ys)
    → Holds l w × HoldsAll l (xs ++ ys)
HoldsAll-take l [] w ys h = h
HoldsAll-take l (x ∷ xs) w ys (h, hs) = let (a, rest) = HoldsAll-take l xs w ys hs in (a, (h, rest))

pub HoldsAll-put :
    (l : Log) (xs : List (List ℕ)) (w : List ℕ) (ys : List (List ℕ))
    → Holds l w
    → HoldsAll l (xs ++ ys)
    → HoldsAll l (xs ++ w ∷ ys)
HoldsAll-put l [] w ys a hs = (a, hs)
HoldsAll-put l (x ∷ xs) w ys a (h, hs) = (h, HoldsAll-put l xs w ys a hs)

pub Holds-add_block :
    (l : Log) (b : ℕ) (w : List ℕ) → Holds l w → HasEntry l b → Holds l (add_block b w)
Holds-add_block l b w h e = elim (Bool-cases (is_in b w)) [
  | inl there ↦ rw there h
  | inr new ↦ rw new (λ c i. elim (Bool-cases (b == c)) [
    | inl same ↦ subst (HasEntry l) ((==_iff b c).0 same) e
    | inr other ↦ h c (rw other at i)
  ])
]
