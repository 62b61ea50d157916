-- ===== src/TrapFrame.antt =====
-- x86.h, `struct trapframe`: the registers that a trap saves, as the 19 words of its layout. A segment
-- register and its padding make up one word, the selector in the lower half.
use os_ass.Common.{ℕ, ◌≡◌, refl, ap, ◌∙◌, List, [], ◌∷◌, get_or}
use os_ass.Common.Memory.{
  Memory, store_words, load_words, load_words-store_words, AllWords, AgreeOn, load_words-AgreeOn,
}

pub record TrapFrame : Type 0 where
  pub edi : ℕ
  pub esi : ℕ
  pub ebp : ℕ
  pub oesp : ℕ
  pub ebx : ℕ
  pub edx : ℕ
  pub ecx : ℕ
  pub eax : ℕ
  pub gs : ℕ
  pub fs : ℕ
  pub es : ℕ
  pub ds : ℕ
  pub trapno : ℕ
  pub err : ℕ
  pub eip : ℕ
  pub cs : ℕ
  pub eflags : ℕ
  pub esp : ℕ
  pub ss : ℕ

-- The frame as it lies in memory.
abbrev pub words : TrapFrame → List ℕ
words t =
    t.edi ∷ t.esi ∷ t.ebp ∷ t.oesp ∷ t.ebx ∷ t.edx ∷ t.ecx ∷ t.eax ∷ t.gs ∷ t.fs ∷ t.es ∷ t.ds
    ∷ t.trapno ∷ t.err ∷ t.eip ∷ t.cs ∷ t.eflags ∷ t.esp ∷ t.ss ∷ []

unfoldable pub of_words : List ℕ → TrapFrame
of_words ws = record {
  edi = get_or ws 0 0;
  esi = get_or ws 1 0;
  ebp = get_or ws 2 0;
  oesp = get_or ws 3 0;
  ebx = get_or ws 4 0;
  edx = get_or ws 5 0;
  ecx = get_or ws 6 0;
  eax = get_or ws 7 0;
  gs = get_or ws 8 0;
  fs = get_or ws 9 0;
  es = get_or ws 10 0;
  ds = get_or ws 11 0;
  trapno = get_or ws 12 0;
  err = get_or ws 13 0;
  eip = get_or ws 14 0;
  cs = get_or ws 15 0;
  eflags = get_or ws 16 0;
  esp = get_or ws 17 0;
  ss = get_or ws 18 0;
}

-- `sizeof(struct trapframe)`
abbrev pub size : ℕ
size = 76

-- Every register holds a 32-bit word.
abbrev pub IsWords : TrapFrame → Type 0
IsWords t = AllWords (words t)

-- `memmove` of a frame into memory and out of it.
unfoldable pub store_frame : Memory → ℕ → TrapFrame → Memory
store_frame m a t = store_words m a (words t)

unfoldable pub load_frame : Memory → ℕ → TrapFrame
load_frame m a = of_words (load_words m a 19)

of_words-words : (t : TrapFrame) → of_words (words t) ≡ t
unfolding of_words
of_words-words t = refl

-- A frame that was stored is read back, whatever has happened elsewhere since.
pub load_frame-store_frame :
    (m m' : Memory) (a : ℕ) (t : TrapFrame)
    → IsWords t
    → AgreeOn a size (store_frame m a t) m'
    → load_frame m' a ≡ t
unfolding store_frame load_frame
load_frame-store_frame m m' a t h same =
    ap of_words (
      load_words-AgreeOn (store_words m a (words t)) m' a 19 same
      ∙ load_words-store_words m a (words t) h)
    ∙ of_words-words t
