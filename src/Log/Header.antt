-- ===== src/Log/Header.antt =====
-- The header block of the log: what `read_head` reads back from it.
use mathlib.Core.Path.{subst}
use os_ass.Common.{
  ℕ, zero, suc, ◌+◌, ◌≤◌, ◌<◌, ◌≡◌, refl, sym, ap, ◌∙◌, inl, inr, true, false, ◌&&◌, List, arith,
  ltb, leb, if◌then◌else◌, length, get_or, set, replicate, length-set, get_or-set,
}
use os_ass.Log.{Block, Blocks, Log, log_size, read_blocks, read_head}
use os_ass.Log.Recovery.{Home, entry, IsLog, Logged, boot}

-- The entries that `read_head` reads.
entry-read_blocks :
    (r i j : ℕ) (hd : Block) (block : List ℕ)
    → i + r ≤ length block
    → get_or (read_blocks r i hd block) j 0
      ≡ (if leb i j && ltb j (i + r) then hd (suc j) else get_or block j 0)
entry-read_blocks zero i j hd block h = ground arith
entry-read_blocks (suc r) i j hd block h =
    entry-read_blocks r (suc i) j hd (set block i (hd (suc i)))
      (omega (arith, length-set block i (hd (suc i))))
    ∙ ground (arith, get_or-set block i j (hd (suc i)) 0)

length-read_blocks :
    (r i : ℕ) (hd : Block) (block : List ℕ) → length (read_blocks r i hd block) ≡ length block
length-read_blocks zero i hd block = refl
length-read_blocks (suc r) i hd block =
    length-read_blocks r (suc i) hd (set block i (hd (suc i))) ∙ length-set block i (hd (suc i))

-- The log that recovery reads from disk `d`.
abbrev pub found : Log → Blocks → Log
found l d =
    read_head
      (record {
        start = l.start;
        size = l.size;
        outstanding = 0;
        committing = false;
        n = 0;
        block = replicate log_size 0;
      })
      (boot d)

-- Another description of the same log.
pub Logged-found :
    (k l : Log) (d x : Blocks)
    → k.start ≡ l.start
    → k.size ≡ l.size
    → k.n ≡ l.n
    → ((i : ℕ) → i < l.n → entry k i ≡ entry l i)
    → Logged l d x
    → Logged k d x
Logged-found k l d x es ez en ee g = record {
  head = rw (es, en) g.head;
  numbers = λ i p. rw es (g.numbers i (omega arith) ∙ sym (ee i (omega arith)));
  copies = λ i p. rw es (g.copies i (omega arith) ∙ ap x (sym (ee i (omega arith))));
  waiting = λ b h. elim (g.waiting b (rw (es, ez) at h)) [
    | inl same ↦ inl same
    | inr (i, from, lt, at) ↦ inr (i, from, omega arith, ee i lt ∙ at)
  ];
}

module _ (l : Log) (d x : Blocks) (w : IsLog l) where
  pub found-n : Logged l d x → (found l d).n ≡ l.n
  unfolding read_head
  found-n g = g.head

  pub found-entry : Logged l d x → (i : ℕ) → i < l.n → entry (found l d) i ≡ entry l i
  unfolding read_head
  found-entry g i p =
      entry-read_blocks (d l.start 0) 0 i (d l.start) (replicate log_size 0)
        (omega (arith, g.head, w.small))
      ∙ rw (covered) (g.numbers i p)
    where
      covered : (leb 0 i && ltb i (0 + d l.start 0)) ≡ true
      covered = ground (arith, g.head)

  pub found-IsLog : Logged l d x → IsLog (found l d)
  unfolding read_head
  found-IsLog g = record {
    room = omega (arith, g.head, w.room);
    small = omega (arith, g.head, w.small);
    entries = length-read_blocks (d l.start 0) 0 (d l.start) (replicate log_size 0);
    homes = λ i p.
        let lt : i < l.n = omega (arith, g.head) in
        subst (Home l) (sym (found-entry g i lt)) (w.homes i lt);
  }
