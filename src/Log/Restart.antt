-- ===== src/Log/Restart.antt =====
-- Recovery after a crash, and after crashes during recovery.
use mathlib.Core.Path.{subst}
use os_ass.Common.{◌≡◌, refl, sym, ◌∙◌, inl, inr, ◌∷◌, arith}
use os_ass.Log.{Blocks, Machine, Log, install_trans, read_head, write_head, recover_from_log}
use os_ass.Log.Recovery.{
  IsLog, Same, Idle, Logged, boot, recover, Good, Recovered, All, Installing,
  install_loop-Installing, Waiting-Same, write_head-Idle,
}
use os_ass.Log.Header.{found, Logged-found, found-n, found-entry, found-IsLog}

install_trans-none : (l : Log) (m : Machine) → l.n ≡ 0 → install_trans l m ≡ m
unfolding install_trans
install_trans-none l m e = rw e

pub past-write_head : (l : Log) (m : Machine) → (write_head l m).past ≡ m.disk ∷ m.past
unfolding write_head
past-write_head l m = refl

-- What a log is on the disk depends on its place alone.
pub Idle-placed :
    (k l : Log) (d x : Blocks) → k.start ≡ l.start → k.size ≡ l.size → Idle k d x → Idle l d x
Idle-placed k l d x es ez (none_logged, same) =
    (subst (λ s. d s 0 ≡ 0) es none_logged, λ b h. same b (omega (arith, h, es, ez)))

-- `write_head` after recovery has set the count to 0.
module _ (l : Log) (x : Blocks) (w : IsLog l) where
  -- Recovery from a disk whose log has been installed.
  finish :
      (k : Log) (m : Machine)
      → k.start ≡ l.start
      → k.size ≡ l.size
      → k.n ≡ 0
      → Same l m.disk x
      → Good l x m.disk
      → All (Good l x) m.past
      → Recovered l x (write_head k m)
  finish k m es ez en same now before = record {
    idle = Idle-placed k l (write_head k m).disk x es ez (
        write_head-Idle k m x (omega (arith, ez, w.room)) en
          (λ b h. same b (omega (arith, h, es, ez))));
    before = rw (past-write_head k m) (now, before);
  }

  place : (d : Blocks) → ((found l d).start ≡ l.start) × ((found l d).size ≡ l.size)
  unfolding read_head
  place d = (refl, refl)

  found-count : (d : Blocks) → (found l d).n ≡ d l.start 0
  unfolding read_head
  found-count d = refl

  abbrev last : Blocks → Machine
  last d = install_trans (found l d) (boot d)

  recover-Idle : (d : Blocks) → Idle l d x → Recovered l x (recover l d)
  unfolding recover_from_log
  recover-Idle d idle =
      subst (λ m. Recovered l x (write_head (record (found l d) { n = 0 }) m)) (sym unchanged)
        (finish (record (found l d) { n = 0 }) (boot d) (place d).0 (place d).1 refl idle.1
          (inl idle) tt)
    where
      unchanged : install_trans (found l d) (boot d) ≡ boot d
      unchanged = install_trans-none (found l d) (boot d) (found-count d ∙ idle.0)

  recover-Logged : (d : Blocks) → Logged l d x → Recovered l x (recover l d)
  unfolding recover_from_log install_trans
  recover-Logged d g =
      finish (record (found l d) { n = 0 }) (install_trans (found l d) (boot d)) (place d).0
        (place d).1 refl (Same-placed (Waiting-Same (found l d) (last d).disk x all.waiting))
        (inr (back (last d).disk all.logged)) all.before
    where
      there : Logged (found l d) d x
      there =
          Logged-found (found l d) l d x (place d).0 (place d).1 (found-n l d x w g)
            (found-entry l d x w g) g

      back : (e : Blocks) → Logged (found l d) e x → Logged l e x
      back e h =
          Logged-found l (found l d) e x (sym (place d).0) (sym (place d).1)
            (sym (found-n l d x w g))
            (λ i p. sym (found-entry l d x w g i (omega (arith, found-n l d x w g)))) h

      all : Installing (Good l x) (found l d) x (found l d).n (last d)
      all =
          install_loop-Installing (Good l x) (found l d) x (found-IsLog l d x w g)
            (λ e h. inr (back e h)) (found l d).n 0 (boot d) (omega arith)
            (record { cached = there.copies; logged = there; waiting = there.waiting; before = tt })

      Same-placed : Same (found l d) (last d).disk x → Same l (last d).disk x
      Same-placed same b h = same b (omega (arith, h, (place d).0, (place d).1))

  -- From whatever a crash may leave, recovery brings back `x` outside the log, and so it does after
  -- a crash of its own.
  pub recover-Recovered : (d : Blocks) → Good l x d → Recovered l x (recover l d)
  recover-Recovered d (inl idle) = recover-Idle d idle
  recover-Recovered d (inr logged) = recover-Logged d logged
