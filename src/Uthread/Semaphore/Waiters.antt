-- ===== src/Uthread/Semaphore/Waiters.antt =====
-- A semaphore is free, or held with a queue of threads that wait.
use mathlib.Core.List.{map-append}
use mathlib.Core.Path.{subst}
use os_ass.Common.{
  ℕ, zero, suc, ◌+◌, ◌-◌, ◌%◌, ◌≤◌, ◌<◌, ◌≡◌, refl, sym, ap, ◌∙◌, true, false, Option, none, some,
  List, [], ◌∷◌, ◌++◌, map, arith, ◌==◌, if◌then◌else◌, ==_refl, length, get_or, set, length-set,
  get_or-set, modify,
}
use os_ass.Uthread.{
  Threads, max_uthreads, uthread_quanta, set_alarm, modify_thread, set_state, fall_asleep,
  t_runnable, uthread_sleep,
}
use os_ass.Uthread.Semaphore.{Bsem, enqueue, dequeue, bsem_down, bsem_up}

abbrev pub ring : (k from : ℕ) → List (Option ℕ) → List (Option ℕ)
ring zero from l = []
ring (suc k) from l = get_or l (from % max_uthreads) none ∷ ring k (from + 1) l

-- The list of a semaphore holds the threads `ws`, the one that has waited longest first.
abbrev pub Waits : Bsem → List ℕ → Type 0
Waits b ws = ring b.num_of_wating_threads b.to_out b.list ≡ map some ws

-- What a semaphore is to its users.
pub data Sem : Type 0 where
  free : Sem
  held : (waiting : List ℕ) → Sem

pub record IsRing (b : Bsem) : Type 0 where
  pub space : length b.list ≡ max_uthreads
  pub small : b.num_of_wating_threads ≤ max_uthreads
  pub out : b.to_out < max_uthreads
  pub next : b.insert ≡ (b.to_out + b.num_of_wating_threads) % max_uthreads

-- A semaphore of the program stands for one that its users see.
abbrev pub Stands : Bsem → Sem → Type 0
Stands b free = IsRing b × (b.s ≡ 1) × (b.num_of_wating_threads ≡ 0)
Stands b (held ws) = IsRing b × (b.s ≡ 0) × Waits b ws

ring-set :
    (k e from : ℕ) (c : Option ℕ) (l : List (Option ℕ))
    → length l ≡ max_uthreads
    → k + e < max_uthreads
    → ring k from (set l ((from + k + e) % max_uthreads) c) ≡ ring k from l
ring-set zero e from c l len h = refl
ring-set (suc k) e from c l len h =
    rw (first, same)
      (ap (λ xs. get_or l (from % max_uthreads) none ∷ xs)
        (ring-set k e (from + 1) c l len (omega arith)))
  where
    same : (from + suc k + e) % max_uthreads ≡ (from + 1 + k + e) % max_uthreads
    same = let e : from + suc k + e ≡ from + 1 + k + e = omega arith in rw e refl

    first :
        get_or (set l ((from + suc k + e) % max_uthreads) c) (from % max_uthreads) none
        ≡ get_or l (from % max_uthreads) none
    first =
        ground
          (arith, get_or-set l ((from + suc k + e) % max_uthreads) (from % max_uthreads) c none)

ring-suc :
    (k from : ℕ) (l : List (Option ℕ))
    → ring (suc k) from l ≡ ring k from l ++ get_or l ((from + k) % max_uthreads) none ∷ []
ring-suc zero from l = let e : from + 0 ≡ from = omega arith in rw e refl
ring-suc (suc k) from l =
    let e : from + 1 + k ≡ from + suc k = omega arith in
    ap (λ xs. get_or l (from % max_uthreads) none ∷ xs) (ring-suc k (from + 1) l ∙ rw e refl)

ring-mod : (k from : ℕ) (l : List (Option ℕ)) → ring k (from % max_uthreads) l ≡ ring k from l
ring-mod zero from l = refl
ring-mod (suc k) from l =
    let e : from % max_uthreads % max_uthreads ≡ from % max_uthreads = omega arith in
    let same : (from % max_uthreads + 1) % max_uthreads ≡ (from + 1) % max_uthreads = omega arith in
    rw e (
      ap (λ xs. get_or l (from % max_uthreads) none ∷ xs)
        (sym (ring-mod k (from % max_uthreads + 1) l) ∙ rw same (ring-mod k (from + 1) l)))

abbrev pub down_sem : (me : ℕ) → Sem → Sem
down_sem me free = held []
down_sem me (held ws) = held (ws ++ me ∷ [])

-- The thread that `up` lets go on, and the semaphore that it leaves.
abbrev pub up_sem : Sem → Option ℕ × Sem
up_sem free = (none, free)
up_sem (held []) = (none, free)
up_sem (held (w ∷ ws)) = (some w, held ws)

-- The ring has room for another thread.
abbrev pub HasSpace : Bsem → Type 0
HasSpace b = b.num_of_wating_threads < max_uthreads

enqueue-Waits :
    (me : ℕ) (b : Bsem) (ws : List ℕ)
    → IsRing b
    → HasSpace b
    → Waits b ws
    → Waits (enqueue me b) (ws ++ me ∷ [])
enqueue-Waits me b ws r room w =
    ap (λ n. ring n b.to_out (set b.list b.insert (some me))) more
    ∙ ring-suc b.num_of_wating_threads b.to_out (set b.list b.insert (some me))
    ∙ rw (sym r.next, stored)
        (ap (λ xs. xs ++ some me ∷ [])
            (rw at
                (ring-set b.num_of_wating_threads 0 b.to_out (some me) b.list r.space (omega arith))
              ∙ w)
          ∙ sym (map-append some ws (me ∷ [])))
  where
    more : b.num_of_wating_threads + 1 ≡ suc b.num_of_wating_threads
    more = omega arith

    at : b.insert ≡ (b.to_out + b.num_of_wating_threads + 0) % max_uthreads
    at = omega (arith, r.next)

    stored : get_or (set b.list b.insert (some me)) b.insert none ≡ some me
    stored =
        get_or-set b.list b.insert b.insert (some me) none (omega (arith, r.space, r.next))
        ∙ rw (==_refl b.insert) refl

enqueue-IsRing : (me : ℕ) (b : Bsem) → IsRing b → HasSpace b → IsRing (enqueue me b)
enqueue-IsRing me b r room = record {
  space = length-set b.list b.insert (some me) ∙ r.space;
  small = omega arith;
  out = r.out;
  next = omega (arith, r.next);
}

dequeue-IsRing : (b : Bsem) → IsRing b → 0 < b.num_of_wating_threads → IsRing (dequeue b)
dequeue-IsRing b r h = record {
  space = length-set b.list b.to_out none ∙ r.space;
  small = omega (arith, r.small);
  out = omega arith;
  next = omega (arith, r.next, r.small, r.out);
}

ring-uncons :
    (n from w : ℕ) (l : List (Option ℕ)) (xs : List (Option ℕ))
    → ring n from l ≡ some w ∷ xs
    → (0 < n) × (get_or l (from % max_uthreads) none ≡ some w) × (ring (n - 1) (from + 1) l ≡ xs)
ring-uncons zero from w l xs e = absurd (cc)
ring-uncons (suc n) from w l xs e =
    let less : suc n - 1 ≡ n = omega arith in (omega arith, cc, rw less (cc))

dequeue-Waits :
    (b : Bsem) (w : ℕ) (ws : List ℕ)
    → IsRing b
    → Waits b (w ∷ ws)
    → (0 < b.num_of_wating_threads) × (get_or b.list b.to_out none ≡ some w) × Waits (dequeue b) ws
dequeue-Waits b w ws r e =
    let (some_wait, first, rest) =
      ring-uncons b.num_of_wating_threads b.to_out w b.list (map some ws) e in
    let here : b.to_out % max_uthreads ≡ b.to_out = omega (arith, r.out) in
    (
      some_wait,
      rw here at first,
      ring-mod (b.num_of_wating_threads - 1) (b.to_out + 1) (set b.list b.to_out none)
          ∙ subst
              (λ i.
                ring (b.num_of_wating_threads - 1) (b.to_out + 1) (set b.list i none)
                ≡ ring (b.num_of_wating_threads - 1) (b.to_out + 1) b.list)
              (sym (around some_wait))
              (ring-set (b.num_of_wating_threads - 1) (max_uthreads - b.num_of_wating_threads)
                (b.to_out + 1) none b.list r.space (omega arith))
          ∙ rest,
    )
  where
    around :
        0 < b.num_of_wating_threads
        → b.to_out
          ≡ (b.to_out
              + 1
              + (b.num_of_wating_threads - 1)
              + (max_uthreads - b.num_of_wating_threads))
            % max_uthreads
    around some_wait = omega (arith, r.out, r.small)

-- What `bsem_down` does to the threads: the current one goes on, with the alarm set, or it sleeps, with
-- a signal sent that gives the turn to another.
abbrev pub DownThreads : Sem → (t t' : Threads) → Type 0
DownThreads free t t' = (t'.table ≡ t.table) × (t'.alarm ≡ uthread_quanta)
DownThreads (held ws) t t' =
    (t'.table ≡ modify t.table t.current (fall_asleep 0)) × (t'.sent ≡ true)

-- While the ring has room, `bsem_down` takes a free semaphore, and the current thread goes on with
-- the alarm set. On one that is held the current thread becomes the last of those that wait, and
-- sleeps, with a signal sent that gives the turn to another.
pub bsem_down-Stands :
    (now : ℕ) (b : Bsem) (x : Sem) (t : Threads)
    → Stands b x
    → HasSpace b
    → let (b', t') = bsem_down now b t in Stands b' (down_sem t.current x) × DownThreads x t t'
unfolding bsem_down uthread_sleep
bsem_down-Stands now b free t (r, one, none_wait) room =
    let z : (b.s == 0) ≡ false = ground arith in
    rw (z, bsem_down)
      (
        (
          record { space = r.space; small = r.small; out = r.out; next = r.next },
          refl,
          rw none_wait refl,
        ),
        (refl, refl),
      )
bsem_down-Stands now b (held ws) t (r, taken, w) room =
    let z : (b.s == 0) ≡ true = ground arith in
    rw (z, bsem_down)
      (
        (enqueue-IsRing t.current b r room, taken, enqueue-Waits t.current b ws r room w),
        (refl, refl),
      )

-- What `bsem_up` does to the threads: it wakes the one that has waited longest, if there is one.
abbrev pub UpThreads : Option ℕ → (t t' : Threads) → Type 0
UpThreads none t t' = t'.table ≡ t.table
UpThreads (some w) t t' = t'.table ≡ modify t.table w (set_state t_runnable)

-- `bsem_up` follows no null pointer. It hands a semaphore that others wait for on to the one that
-- has waited longest, which becomes runnable, and sets one free that nobody waits for; the alarm is
-- set again, but not if the semaphore was free already.
pub bsem_up-Stands :
    (b : Bsem) (x : Sem) (t : Threads)
    → Stands b x
    → (b' : Bsem) × (t' : Threads) × (bsem_up b t ≡ some (b', t'))
      × Stands b' (up_sem x).1
      × UpThreads (up_sem x).0 t t'
      × (t'.alarm ≡ (if b.s == 1 then 0 else uthread_quanta))
unfolding bsem_up
bsem_up-Stands b free t (r, one, none_wait) =
    (b, set_alarm 0 t, rw (bsem_up, none_wait, one) refl, (r, one, none_wait), refl, rw one refl)
bsem_up-Stands b (held []) t (r, taken, w) =
    let e : b.num_of_wating_threads ≡ 0 = nobody w in
    (
      record b { s = 1 },
      set_alarm uthread_quanta (set_alarm 0 t),
      rw (bsem_up, e, taken) refl,
      (record { space = r.space; small = r.small; out = r.out; next = r.next }, refl, e),
      refl,
      rw taken refl,
    )
  where
    nobody_in : (n from : ℕ) (l : List (Option ℕ)) → ring n from l ≡ [] → n ≡ 0
    nobody_in zero from l e = refl
    nobody_in (suc n) from l e = absurd (cc)

    nobody : Waits b [] → b.num_of_wating_threads ≡ 0
    nobody w = nobody_in b.num_of_wating_threads b.to_out b.list w
bsem_up-Stands b (held (w ∷ ws)) t (r, taken, e) =
    let (some_wait, first, rest) = dequeue-Waits b w ws r e in
    let waits : (b.num_of_wating_threads == 0) ≡ false = ground arith in
    (
      dequeue b,
      set_alarm uthread_quanta (modify_thread w (set_state t_runnable) (set_alarm 0 t)),
      rw (bsem_up, waits, first) refl,
      (dequeue-IsRing b r some_wait, taken, rest),
      refl,
      rw taken refl,
    )
