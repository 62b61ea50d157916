-- ===== src/Signal/Frame.antt =====
-- The frame that `checkPEndingSignals` builds on the user's stack, and the way back through it.
use os_ass.Common.{ℕ, ◌+◌, ◌%◌, ◌^◌, ◌≤◌, ◌<◌, ◌≡◌, refl, ap, ◌∙◌, inr, List, arith, length}
use os_ass.Common.Memory.{
  Memory, store_bytes, store_word, load_word, load_word-store_word, AgreeOn, store_word-outside,
  store_words-outside, load_word-AgreeOn,
}
use os_ass.TrapFrame
use os_ass.TrapFrame.{TrapFrame, words, IsWords, store_frame, load_frame, load_frame-store_frame}
use os_ass.Proc.{Proc}
use os_ass.Signal.{
  syscall_sigreturn, code_at, flag_at, frame_at, arg_at, ret_at, tf_flag, push_signal,
  enter_handler, sigreturn,
}

-- The user's stack has room for all that is pushed.
abbrev pub HasRoom : List ℕ → TrapFrame → Type 0
HasRoom wrapper t = (length wrapper + 88 ≤ t.esp) × (t.esp < 2 ^ 32)

module _ (wrapper : List ℕ) (m : Memory) (t : TrapFrame) (n : ℕ) where
  -- What a handler finds at its stack pointer, from there on upward.
  pub record Layout (m' : Memory) : Type 0 where
    pub ret : load_word m' (ret_at wrapper t.esp) ≡ code_at wrapper t.esp
    pub arg : load_word m' (ret_at wrapper t.esp + 4) ≡ n
    pub frame : load_frame m' (ret_at wrapper t.esp + 8) ≡ t
    pub flag : load_word m' (ret_at wrapper t.esp + 84) ≡ tf_flag

  abbrev stored : Memory
  stored =
      store_frame
        (store_word (store_bytes m (code_at wrapper t.esp) wrapper) (flag_at wrapper t.esp) tf_flag)
        (frame_at wrapper t.esp) t

  -- The two words pushed below the frame spare it and what lies above.
  above_frame :
      HasRoom wrapper t
      → (x : ℕ) → frame_at wrapper t.esp ≤ x
      → push_signal wrapper m t n x ≡ stored x
  unfolding push_signal
  above_frame room x h =
      store_word-outside (store_word stored (arg_at wrapper t.esp) n) (ret_at wrapper t.esp)
        (code_at wrapper t.esp) x (inr (omega arith))
      ∙ store_word-outside stored (arg_at wrapper t.esp) n x (inr (omega arith))

  pub frame_kept :
      HasRoom wrapper t
      → IsWords t
      → (m' : Memory)
      → AgreeOn (frame_at wrapper t.esp) TrapFrame.size (push_signal wrapper m t n) m'
      → load_frame m' (frame_at wrapper t.esp) ≡ t
  frame_kept room w m' same =
      load_frame-store_frame
        (store_word (store_bytes m (code_at wrapper t.esp) wrapper) (flag_at wrapper t.esp) tf_flag)
        m' (frame_at wrapper t.esp) t w (λ x p q. same x p q ∙ above_frame room x p)

  places :
      HasRoom wrapper t
      → (ret_at wrapper t.esp + 4 ≡ arg_at wrapper t.esp)
        × (ret_at wrapper t.esp + 8 ≡ frame_at wrapper t.esp)
        × (ret_at wrapper t.esp + 84 ≡ flag_at wrapper t.esp)
  places room = omega arith

  flag_kept :
      HasRoom wrapper t → load_word (push_signal wrapper m t n) (flag_at wrapper t.esp) ≡ tf_flag
  unfolding store_frame
  flag_kept room =
      load_word-AgreeOn base (push_signal wrapper m t n) (flag_at wrapper t.esp) (λ x p q.
        above_frame room x (omega arith)
        ∙ store_words-outside base (frame_at wrapper t.esp) (words t) x (inr (omega arith)))
      ∙ load_word-store_word (store_bytes m (code_at wrapper t.esp) wrapper) (flag_at wrapper t.esp)
          tf_flag (omega arith)
    where
      base : Memory
      base =
          store_word (store_bytes m (code_at wrapper t.esp) wrapper) (flag_at wrapper t.esp) tf_flag

  -- With room on the stack and a 32-bit signal number, the handler finds, from its stack pointer
  -- upward: the address of the wrapper's code as its return address, the signal's number as its
  -- argument, the interrupted trap frame, and the mark.
  pub push_signal-Layout :
      HasRoom wrapper t → IsWords t → n < 2 ^ 32 → Layout (push_signal wrapper m t n)
  unfolding push_signal
  push_signal-Layout room w hn = record {
    ret =
        load_word-store_word (store_word stored (arg_at wrapper t.esp) n) (ret_at wrapper t.esp)
          (code_at wrapper t.esp) (omega arith);
    arg = rw ((places room).0) (
        load_word-AgreeOn (store_word stored (arg_at wrapper t.esp) n) (push_signal wrapper m t n)
          (arg_at wrapper t.esp)
          (λ x p q.
            store_word-outside (store_word stored (arg_at wrapper t.esp) n) (ret_at wrapper t.esp)
              (code_at wrapper t.esp) x (inr (omega arith)))
        ∙ load_word-store_word stored (arg_at wrapper t.esp) n hn);
    frame = rw ((places room).1) (frame_kept room w (push_signal wrapper m t n) (λ x p q. refl));
    flag = rw ((places room).2) (flag_kept room);
  }

-- A process that enters a handler with room on its stack and calls `sigreturn` with the frame pointer
-- it was given goes on, after the system call, where it was interrupted: every register but eax is as
-- before, eax is 0, the result of the call, and its pending signals stay. Meanwhile it may have written
-- anywhere but over the saved frame, and changed its other registers.
pub sigreturn-push_signal :
    (wrapper : List ℕ) (m m' : Memory) (t : TrapFrame) (n h : ℕ) (q : Proc)
    → HasRoom wrapper t
    → IsWords t
    → q.tf.ebp ≡ (enter_handler wrapper t h).ebp
    → AgreeOn (frame_at wrapper t.esp) TrapFrame.size (push_signal wrapper m t n) m'
    → ((syscall_sigreturn m' q).tf ≡ record t { eax = 0 })
      × ((syscall_sigreturn m' q).pending ≡ q.pending)
unfolding syscall_sigreturn sigreturn
sigreturn-push_signal wrapper m m' t n h q room w e same = (
  ap (λ (f : TrapFrame). record f { eax = 0 })
      (ap (load_frame m') (resume e) ∙ frame_kept wrapper m t n room w m' same),
  refl,
)
  where
    resume : q.tf.ebp ≡ ret_at wrapper t.esp → (q.tf.ebp + 8) % 2 ^ 32 ≡ frame_at wrapper t.esp
    resume e = omega arith
