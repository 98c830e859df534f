-- ===== src/Timer/Queue.antt =====
-- The operations of the timer queue: what is due comes out, and the descriptor is set for the first.
use my_tiny_network_library.Base.{
  ℕ, suc, max, ◌+◌, ◌-◌, ◌*◌, ◌≡◌, ◌≤◌, ◌<◌, refl, sym, subst, arith, Bool, true, false, List, [],
  ◌∷◌, ◌++◌, Option, some, ltb, All, All-map, Bool-cases, inl, inr,
}
use my_tiny_network_library.Timer.{
  Entry, before, set_insert, split_at, TimerQueue, get_expired, max_pointer, insert,
  earliest_changed, add_timer_in_loop, reset_timerfd, it_value, time_left, reset, run_all,
  handle_read,
}
use my_tiny_network_library.Timer.Order.{
  InOrder, set_insert-InOrder, set_insert-All, split_at-Split,
}

-- The descriptor waits, in seconds and nanoseconds, from `now` to the expiration, and for at least
-- 100 microseconds.
abbrev pub Waits : ℕ → ℕ → ℕ → ℕ → Type 0
Waits now t seconds nanoseconds =
    (nanoseconds < 1000000000) × (seconds * 1000000000 + nanoseconds ≡ max 100 (t - now) * 1000)

module _ (clock : ℕ → ℕ) (tick : ℕ) where
  -- the descriptor was set for this expiration, by one of the readings of the clock so far
  abbrev pub SetFor : Option (ℕ × (ℕ × ℕ)) → ℕ → Type 0
  SetFor armed t =
      (n : ℕ) × (n < tick)
      × (seconds : ℕ) × (nanoseconds : ℕ) × (armed ≡ some (t, (seconds, nanoseconds)))
      × Waits (clock n) t seconds nanoseconds

  abbrev pub FirstSet : List Entry → Option (ℕ × (ℕ × ℕ)) → Type 0
  FirstSet [] armed = Unit
  FirstSet ((t, p) ∷ entries) armed = SetFor armed t

it_value-Waits :
    (now t : ℕ)
    → let (seconds, nanoseconds) = it_value (time_left t now) in Waits now t seconds nanoseconds
unfolding it_value time_left
it_value-Waits now t = elim (Bool-cases (ltb (t - now) 100)) [
  | inl e ↦ rw e (omega arith, let small : t - now < 100 = ground arith in omega (arith, small))
  | inr e ↦ let large : 100 ≤ t - now = ground arith in rw e (omega arith, omega (arith, large))
]

due-le : (now : ℕ) (e : Entry) → before e (now, max_pointer) ≡ true → e.0 ≤ now
due-le now (t, p) h = ground arith

All-behind : (P : Entry → Type 0) (front rest : List Entry) → All P (front ++ rest) → All P rest
All-behind P [] rest h = h
All-behind P (e ∷ front) rest h = All-behind P front rest h.1

-- the first entry behind an insertion: the new one, if it is the earliest
first_new :
    (clock : ℕ → ℕ) (tick : ℕ) (e : Entry) (entries : List Entry) (armed : Option (ℕ × (ℕ × ℕ)))
    → earliest_changed e.0 entries ≡ true
    → SetFor clock tick armed e.0
    → FirstSet clock tick (set_insert e entries) armed
unfolding earliest_changed set_insert
first_new clock tick (t, p) [] armed h k = k
first_new clock tick (t, p) ((u, r) ∷ entries) armed h k = rw (earlier t u p r h) k
  where
    earlier : (t u p r : ℕ) → ltb t u ≡ true → before (t, p) (u, r) ≡ true
    earlier t u p r h = ground arith

-- and otherwise one with the expiration that was first
first_old :
    (clock : ℕ → ℕ) (tick : ℕ) (e : Entry) (entries : List Entry) (armed : Option (ℕ × (ℕ × ℕ)))
    → earliest_changed e.0 entries ≡ false
    → FirstSet clock tick entries armed
    → FirstSet clock tick (set_insert e entries) armed
unfolding earliest_changed set_insert
first_old clock tick (t, p) [] armed h k = cc
first_old clock tick (t, p) ((u, r) ∷ entries) armed h k =
    elim (Bool-cases (before (t, p) (u, r))) [
      | inl b ↦ rw b (subst (SetFor clock tick armed) (same t u p r h b) k)
      | inr b ↦ elim (Bool-cases (before (u, r) (t, p))) [
        | inl a ↦ rw (b, a) k
        | inr a ↦ rw (b, a) k
      ]
    ]
  where
    same : (t u p r : ℕ) → ltb t u ≡ false → before (t, p) (u, r) ≡ true → u ≡ t
    same t u p r h b = ground arith

module _ {Callback : Type 0} where
  -- an entry has the expiration of its timer, and a pointer below the greatest
  abbrev pub Keyed : TimerQueue Callback → Entry → Type 0
  Keyed q (t, p) = ((q.store p).expiration ≡ t) × (p < max_pointer)

  pub record IsQueue (q : TimerQueue Callback) : Type 0 where
    pub ordered : InOrder q.timers
    pub keyed : All (Keyed q) q.timers

  later-lt :
      (q : TimerQueue Callback) (now : ℕ) (entries : List Entry)
      → All (λ e. before e (now, max_pointer) ≡ false) entries
      → All (Keyed q) entries
      → All (λ e. now < e.0) entries
  later-lt q now [] h k = tt
  later-lt q now ((t, p) ∷ entries) h k = (later t p h.0 k.0.1, later-lt q now entries h.1 k.1)
    where
      later : (t p : ℕ) → before (t, p) (now, max_pointer) ≡ false → p < max_pointer → now < t
      later t p h k = ground arith

  -- `getExpired` takes exactly the timers that are due out of the queue: what it returns is the front
  -- of the queue and is not later than now, and what stays is later than now and in order.
  pub get_expired_lem :
      (now : ℕ) (q : TimerQueue Callback)
      → IsQueue q
      → let (expired, q') = get_expired now q in
        (expired ++ q'.timers ≡ q.timers)
        × All (λ e. e.0 ≤ now) expired
        × All (λ e. now < e.0) q'.timers
        × InOrder q'.timers
  unfolding get_expired
  get_expired_lem now q h =
      let s = split_at-Split (now, max_pointer) q.timers h.ordered in
      let (expired, rest) = split_at (now, max_pointer) q.timers in
      (
        s.whole,
        All-map _ _ (due-le now) expired s.due,
        later-lt q now rest s.later
            (All-behind (Keyed q) expired rest (subst (All (Keyed q)) (sym s.whole) h.keyed)),
        s.ordered,
      )

  insert-IsQueue :
      (p : ℕ) (q : TimerQueue Callback) → IsQueue q → p < max_pointer → IsQueue (insert p q).1
  unfolding insert
  insert-IsQueue p q h small = record {
    ordered = set_insert-InOrder ((q.store p).expiration, p) q.timers h.ordered;
    keyed = set_insert-All (Keyed q) ((q.store p).expiration, p) q.timers (refl, small) h.keyed;
  }

module _ {Callback : Type 0} (clock : ℕ → ℕ) where
  add-changed :
      (p : ℕ) (q : TimerQueue Callback)
      → (insert p q).0 ≡ true
      → add_timer_in_loop clock p q
        ≡ reset_timerfd clock ((insert p q).1.store p).expiration (insert p q).1
  unfolding add_timer_in_loop
  add-changed p q e = rw (e, add_timer_in_loop) refl

  add-unchanged :
      (p : ℕ) (q : TimerQueue Callback)
      → (insert p q).0 ≡ false
      → add_timer_in_loop clock p q ≡ (insert p q).1
  unfolding add_timer_in_loop
  add-unchanged p q e = rw (e, add_timer_in_loop) refl

  -- `addTimerInLoop` keeps the entries in order and of their timers, and keeps the timer descriptor
  -- set for the expiration that comes first: it waits for what was left at a reading of the clock, and
  -- for at least 100 microseconds.
  pub add_timer_in_loop-IsQueue :
      (p : ℕ) (q : TimerQueue Callback)
      → IsQueue q
      → FirstSet clock q.tick q.timers q.armed
      → p < max_pointer
      → IsQueue (add_timer_in_loop clock p q)
        × (let q' = add_timer_in_loop clock p q in FirstSet clock q'.tick q'.timers q'.armed)
  unfolding insert reset_timerfd
  add_timer_in_loop-IsQueue p q h k small = go _ refl
    where
      v : IsQueue (insert p q).1
      v = insert-IsQueue p q h small

      go :
          (changed : Bool)
          → (insert p q).0 ≡ changed
          → IsQueue (add_timer_in_loop clock p q)
            × (let q' = add_timer_in_loop clock p q in FirstSet clock q'.tick q'.timers q'.armed)
      go true e =
          subst (λ r. IsQueue r × FirstSet clock r.tick r.timers r.armed) (sym (add-changed p q e))
            (
              record { ordered = v.ordered; keyed = v.keyed },
              first_new clock (suc q.tick) ((q.store p).expiration, p) q.timers _ e
                  (q.tick, omega arith, _, _, refl, it_value-Waits (clock q.tick) _),
            )
      go false e =
          subst (λ r. IsQueue r × FirstSet clock r.tick r.timers r.armed)
            (sym (add-unchanged p q e))
            (v, first_old clock q.tick ((q.store p).expiration, p) q.timers q.armed e k)

split_at-later :
    (now : ℕ) (entries : List Entry)
    → All (λ e. now < e.0) entries
    → split_at (now, max_pointer) entries ≡ ([], entries)
unfolding split_at
split_at-later now [] h = refl
split_at-later now ((t, p) ∷ entries) h = rw (late t p h.0) refl
  where
    late : (t p : ℕ) → now < t → before (t, p) (now, max_pointer) ≡ false
    late t p h = ground arith

-- If the timer descriptor becomes readable while the clock says that no timer is due, `handleRead`
-- runs and removes none, and does not set the descriptor again, which waits for nothing any more.
pub handle_read_early :
    {Callback : Type 0} (clock : ℕ → ℕ) (run : Callback → TimerQueue Callback → TimerQueue Callback)
    (q : TimerQueue Callback)
    → All (λ e. clock q.tick < e.0) q.timers
    → handle_read clock run q ≡ record q { tick = suc q.tick; calling_expired_timers = false }
unfolding handle_read get_expired run_all reset
handle_read_early clock run q h = rw (split_at-later (clock q.tick) q.timers h) refl
