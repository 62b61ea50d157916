-- ===== src/ProcTable/Wakeup.antt =====
-- Sleeping and waking: which processes `wakeup1` and `kill` make runnable.
use os_ass.Common.{
  ℕ, ◌≡◌, refl, sym, ap, ◌∙◌, ◌≢◌, ◌⊎◌, inl, inr, true, false, ◌&&◌, Option, none, some, List, map,
  arith, Bool-cases, Option-cases, ==_iff, ==_refl, get_elem?, modify, get_elem?-modify,
  get_elem?-modify_self, get_elem?-modify_ne, get_elem?-map, find_index, done, done_inj,
}
use mathlib.Core.Option
use os_ass.Common.Int.{ℤ, pos, eq_nat}
use os_ass.Proc.{
  Proc, ProcState, unused, embryo, sleeping, runnable, running, zombie, is_state, Chan, null,
  proc_at, at, is_chan,
}
use os_ass.ProcTable.{wake, wakeup1, mark_killed, kill, Lock, sleep}
use os_ass.ProcTable.Number.{IsNumbered, Inherits, Inherits-IsNumbered, modify-AllInherit}

is_chan_refl : (c : Chan) → is_chan c c ≡ true
unfolding is_chan
is_chan_refl null = refl
is_chan_refl (proc_at i) = ==_refl i
is_chan_refl (at a) = ==_refl a

abbrev pub SleepsOn : Chan → Proc → Type 0
SleepsOn c p = (p.state ≡ sleeping) × (p.chan ≡ c)

pub asleep :
    (c : Chan) (p : Proc) → SleepsOn c p → (is_state p.state sleeping && is_chan p.chan c) ≡ true
unfolding is_state
asleep c p (s, e) = rw (s, e) (is_chan_refl c)

state_of : (s : ProcState) → is_state s sleeping ≡ true → s ≡ sleeping
unfolding is_state
state_of unused e = cc
state_of embryo e = cc
state_of sleeping e = refl
state_of runnable e = cc
state_of running e = cc
state_of zombie e = cc

chan_eq : (a b : Chan) → is_chan a b ≡ true → a ≡ b
unfolding is_chan
chan_eq null null e = refl
chan_eq null _ e = cc
chan_eq (proc_at i) (proc_at j) e = ap proc_at ((==_iff i j).0 e)
chan_eq (proc_at i) _ e = cc
chan_eq (at a) (at b) e = ap at ((==_iff a b).0 e)
chan_eq (at a) _ e = cc

pub asleep_inv :
    (c : Chan) (p : Proc) → (is_state p.state sleeping && is_chan p.chan c) ≡ true → SleepsOn c p
asleep_inv c p e = (state_of p.state (ground arith), chan_eq p.chan c (ground arith))

-- Exactly the processes that sleep on the channel become runnable; nothing else about them, and
-- nothing about any other process, changes.
pub wakeup1_lem :
    (c : Chan) (ps : List Proc) (j : ℕ) (p : Proc)
    → get_elem? ps j ≡ some p
    → (SleepsOn c p × (get_elem? (wakeup1 c ps) j ≡ some (record p { state = runnable })))
      ⊎ ((¬ SleepsOn c p) × (get_elem? (wakeup1 c ps) j ≡ some p))
unfolding wakeup1
wakeup1_lem c ps j p h = elim (Bool-cases (is_state p.state sleeping && is_chan p.chan c)) [
  | inl e ↦ inl (asleep_inv c p e, at (rw e))
  | inr e ↦ inr (λ s. cc (asleep c p s), at (rw e))
]
  where
    at : {q : Proc} → wake c p ≡ q → get_elem? (map (wake c) ps) j ≡ some q
    at e = get_elem?-map ps j (wake c) ∙ ap (Option.map (wake c)) h ∙ ap some e

-- A process that goes to sleep on a channel is runnable after the channel's next wakeup, whatever
-- the others did, if its own entry has not changed meanwhile.
pub wakeup1-sleep :
    (me : ℕ) (c : Chan) (lk : Option Lock) (ps qs between : List Proc) (p : Proc)
    → get_elem? ps me ≡ some p
    → sleep (some me) c lk ps ≡ done qs
    → get_elem? between me ≡ get_elem? qs me
    → get_elem? (wakeup1 c between) me ≡ some (record p { chan = c; state = runnable })
unfolding sleep wakeup1 is_state
wakeup1-sleep me c none ps qs between p h s e = absurd (ground (arith, s))
wakeup1-sleep me c (some lk) ps qs between p h s e =
    get_elem?-map between me (wake c)
    ∙ ap (Option.map (wake c)) (
        e
        ∙ ap (λ t. get_elem? t me) (sym (done_inj s))
        ∙ get_elem?-modify ps me me (λ r. record r { chan = c; state = sleeping }))
    ∙ rw (==_refl me, h, is_chan_refl c)

other_state : (s : ProcState) → is_state s sleeping ≡ true → is_state s unused ≡ false
unfolding is_state
other_state s e = rw (state_of s e)

mark_killed-Inherits : (p : Proc) → Inherits (mark_killed p) p
unfolding is_state
mark_killed-Inherits p = elim (Bool-cases (is_state p.state sleeping)) [
  | inl e ↦ rw e (omega arith, λ u. (other_state p.state e, refl))
  | inr e ↦ rw e (omega arith, λ u. (u, refl))
]

mark_killed-awake :
    (p : Proc) → ((mark_killed p).killed ≡ true) × ((mark_killed p).state ≢ sleeping)
unfolding is_state
mark_killed-awake p = elim (Bool-cases (is_state p.state sleeping)) [
  | inl e ↦ rw e (refl, λ s. cc)
  | inr e ↦ rw e (refl, λ s. cc)
]

-- Whatever `kill` does, no process gets another number.
pub kill-IsNumbered :
    (n : ℕ) (ps : List Proc) (pid : ℤ) → IsNumbered n ps → IsNumbered n (kill ps pid).1
unfolding kill is_state
kill-IsNumbered n ps pid num = elim (Option-cases (find_index (λ p. eq_nat pid p.pid) ps)) [
  | inl e ↦ rw (e, kill) num
  | inr (i, e) ↦
      rw (e, kill)
        (Inherits-IsNumbered n ps (modify ps i mark_killed) num
          (modify-AllInherit ps i mark_killed mark_killed-Inherits))
]

-- `kill` returns 0 if some process has the pid. It marks the first one that has it, which does not
-- sleep afterwards, and leaves every other process as it was.
pub kill_lem :
    (ps : List Proc) (pid : ℤ) (i : ℕ) (p : Proc)
    → find_index (λ p. eq_nat pid p.pid) ps ≡ some i
    → get_elem? ps i ≡ some p
    → (q : Proc) × ((kill ps pid).0 ≡ pos 0)
      × (get_elem? (kill ps pid).1 i ≡ some q)
      × (q.killed ≡ true)
      × (q.state ≢ sleeping)
      × ((j : ℕ) → i ≢ j → get_elem? (kill ps pid).1 j ≡ get_elem? ps j)
unfolding kill is_state
kill_lem ps pid i p e h =
    rw (e, kill)
      (
        mark_killed p,
        refl,
        get_elem?-modify_self ps i mark_killed p h,
        (mark_killed-awake p).0,
        (mark_killed-awake p).1,
        λ j ne. get_elem?-modify_ne ps i j mark_killed ne,
      )
