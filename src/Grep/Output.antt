-- ===== src/Grep/Output.antt =====
-- What `grep` writes for the whole of its input.
use mathlib.Core.List.{append_assoc, append-nil}
use os_ass.Grep.{is_empty, kept, room, grep}
use os_ass.Grep.Lines.{
  split, printed, NoNul, HasNewline, scan_lines-split, HasNewline-shorter, split-append, split_rest,
  NoNul-rest, printed-append,
}
use os_ass.Common.{
  ℕ, ◌+◌, ◌≤◌, ◌<◌, ◌≡◌, refl, sym, ◌∙◌, inr, false, List, [], ◌∷◌, ◌++◌, arith, leb, length,
}

abbrev pub concat : List (List ℕ) → List ℕ
concat [] = []
concat (xs ∷ xss) = xs ++ concat xss

-- The reads that follow the text `rest` in the buffer: each fits behind it, has no NUL and has a
-- newline.
abbrev pub Reads : (rest : List ℕ) → List (List ℕ) → Type 0
Reads rest [] = Unit
Reads rest (chunk ∷ reads) =
    (length rest + length chunk ≤ room)
    × NoNul chunk
    × HasNewline chunk
    × Reads (split (rest ++ chunk)).1 reads

NoNul-append : (xs ys : List ℕ) → NoNul xs → NoNul ys → NoNul (xs ++ ys)
NoNul-append [] ys h k = k
NoNul-append (x ∷ xs) ys (nz, h) k = (nz, NoNul-append xs ys h k)

HasNewline-append : (xs ys : List ℕ) → HasNewline ys → HasNewline (xs ++ ys)
HasNewline-append [] ys h = h
HasNewline-append (x ∷ xs) ys h = inr (HasNewline-append xs ys h)

kept-shorter : (text rest : List ℕ) → length rest < length text → kept text rest ≡ rest
kept-shorter text rest lt = ground arith

is_empty-HasNewline : (text : List ℕ) → HasNewline text → is_empty text ≡ false
is_empty-HasNewline [] h = absurd h
is_empty-HasNewline (x ∷ text) h = refl

-- A read that is not the last in the buffer's room: one round of the outer loop.
grep-round :
    (re text chunk : List ℕ) (reads : List (List ℕ))
    → length text + length chunk ≤ room
    → NoNul (text ++ chunk)
    → HasNewline chunk
    → grep re text (chunk ∷ reads)
      ≡ printed re (split (text ++ chunk)).0 ++ grep re (split (text ++ chunk)).1 reads
unfolding grep
grep-round re text chunk reads fits clean has =
    let some_read : is_empty chunk ≡ false = is_empty-HasNewline chunk has in
    let scanned =
      scan_lines-split (length (text ++ chunk)) re (text ++ chunk) clean (omega arith) in
    let shorter = HasNewline-shorter (text ++ chunk) (HasNewline-append text chunk has) in
    let room_left : leb room (length text) ≡ false = full (HasNewline-shorter chunk has) in
    rw
      (
        some_read,
        room_left,
        scanned,
        kept-shorter (text ++ chunk) (split (text ++ chunk)).1 shorter,
      )
      refl
  where
    full : length (split chunk).1 < length chunk → leb room (length text) ≡ false
    full h = ground arith

grep-printed_from :
    (re text : List ℕ) (reads : List (List ℕ))
    → NoNul text
    → split text ≡ ([], text)
    → Reads text reads
    → grep re text reads ≡ printed re (split (text ++ concat reads)).0
unfolding grep printed
grep-printed_from re text [] ok e h = rw (append-nil text, e, printed) refl
grep-printed_from re text (chunk ∷ reads) ok e (fits, clean, has, h) =
    let both = NoNul-append text chunk ok clean in
    let buf = text ++ chunk in
    let later = grep-printed_from re (split buf).1 reads (NoNul-rest buf both) (split_rest buf) h in
    grep-round re text chunk reads fits both has
    ∙ rw
        (
          later,
          sym (append_assoc text chunk (concat reads)),
          split-append buf (concat reads),
          printed-append re (split buf).0 (split ((split buf).1 ++ concat reads)).0,
        )
        refl

-- If every read fits into the buffer behind the unfinished line, has no NUL and has a newline, then
-- `grep` writes the lines of the whole input that match, each with its newline, in their order,
-- wherever the reads cut the input; what is behind the last newline is not looked at.
pub grep-printed :
    (re : List ℕ) (reads : List (List ℕ))
    → Reads [] reads
    → grep re [] reads ≡ printed re (split (concat reads)).0
unfolding split
grep-printed re reads h = grep-printed_from re [] reads tt refl h
