-- ===== src/Timer.antt =====
-- src/timer and src/base/Timestamp.h: timers in the order of their expiration. A pointer to a timer
-- is a number, and the store holds the timer behind each. Time stamps are microseconds, and not
-- negative. The set of entries is the list of them in order.
pub mod Order
pub mod Queue
mod Tests
use my_tiny_network_library.Base.{
  ℕ, zero, suc, ◌+◌, ◌-◌, ◌/◌, ◌%◌, ◌*◌, Bool, true, false, ◌&&◌, ◌||◌, List, [], ◌∷◌, ◌++◌, Option,
  none, some, if◌then◌else◌, ltb, ◌==◌, set,
}

-- `addTime`, with the delay in microseconds
unfoldable pub add_time : ℕ → ℕ → ℕ
add_time timestamp delta = timestamp + delta

abbrev pub micro_seconds_per_second : ℕ
micro_seconds_per_second = 1000 * 1000

unfoldable pub seconds_since_epoch : ℕ → ℕ
seconds_since_epoch timestamp = timestamp / micro_seconds_per_second

-- `interval_` is the delay in microseconds that `addTime` makes of it.
pub record Timer (Callback : Type 0) : Type 0 where
  pub callback : Callback
  pub expiration : ℕ
  pub interval : ℕ
  pub repeat : Bool

-- The constructor, with whether the interval is positive.
unfoldable pub timer : {Callback : Type 0} → Callback → ℕ → ℕ → Bool → Timer Callback
timer callback when interval positive = record {
  callback = callback;
  expiration = when;
  interval = interval;
  repeat = positive;
}

unfoldable pub restart : {Callback : Type 0} → ℕ → Timer Callback → Timer Callback
restart now t =
    if t.repeat
    then record t { expiration = add_time now t.interval }
    else record t { expiration = 0 }

abbrev pub Entry : Type 0
Entry = ℕ × ℕ

-- the order of `std::pair`
abbrev pub before : Entry → Entry → Bool
before (t, p) (u, q) = ltb t u || (t == u && ltb p q)

-- `std::set::insert`
unfoldable pub set_insert : Entry → List Entry → List Entry
set_insert e [] = e ∷ []
set_insert e (d ∷ entries) =
    let rest = set_insert e entries in
    if before e d then e ∷ d ∷ entries else if before d e then d ∷ rest else d ∷ entries

-- what stands before `lower_bound(sentry)`, and the rest
unfoldable pub split_at : Entry → List Entry → List Entry × List Entry
split_at sentry [] = ([], [])
split_at sentry (d ∷ entries) =
    let (front, rest) = split_at sentry entries in
    if before d sentry then (d ∷ front, rest) else ([], d ∷ entries)

-- `armed` is the expiration that the timer descriptor was last set for, and the `it_value` that it
-- was given. `tick` counts the readings of the clock.
pub record TimerQueue (Callback : Type 0) : Type 0 where
  pub timers : List Entry
  pub store : ℕ → Timer Callback
  pub armed : Option (ℕ × (ℕ × ℕ))
  pub calling_expired_timers : Bool
  pub deleted : List ℕ
  pub tick : ℕ

-- UINTPTR_MAX
abbrev pub max_pointer : ℕ
max_pointer = 18446744073709551615

-- is a timer with this expiration earlier than all others?
unfoldable pub earliest_changed : ℕ → List Entry → Bool
earliest_changed when [] = true
earliest_changed when ((t, p) ∷ entries) = ltb when t

module _ {Callback : Type 0} where
  -- whether the timer is now the earliest, and the queue
  unfoldable pub insert : ℕ → TimerQueue Callback → Bool × TimerQueue Callback
  insert pointer q =
      let when = (q.store pointer).expiration in
      (earliest_changed when q.timers, record q { timers = set_insert (when, pointer) q.timers })

  unfoldable pub get_expired : ℕ → TimerQueue Callback → List Entry × TimerQueue Callback
  get_expired now q =
      let (expired, rest) = split_at (now, max_pointer) q.timers in
      (expired, record q { timers = rest })

-- the time that the descriptor is to wait: the source's difference is signed, and less than 100 also
-- where it is negative
unfoldable pub time_left : ℕ → ℕ → ℕ
time_left expiration now = if ltb (expiration - now) 100 then 100 else expiration - now

-- `it_value`, in seconds and nanoseconds
unfoldable pub it_value : ℕ → ℕ × ℕ
it_value micros = (micros / micro_seconds_per_second, micros % micro_seconds_per_second * 1000)

module _ {Callback : Type 0} (clock : ℕ → ℕ) where
  unfoldable pub reset_timerfd : ℕ → TimerQueue Callback → TimerQueue Callback
  reset_timerfd expiration q = record q {
    armed = some (expiration, it_value (time_left expiration (clock q.tick)));
    tick = suc q.tick;
  }

  unfoldable pub add_timer_in_loop : ℕ → TimerQueue Callback → TimerQueue Callback
  add_timer_in_loop pointer q =
      let (changed, q') = insert pointer q in
      if changed then reset_timerfd (q'.store pointer).expiration q' else q'

  -- a timer whose callback has run
  unfoldable pub renew : ℕ → TimerQueue Callback → TimerQueue Callback
  renew pointer q =
      let t = q.store pointer in
      if t.repeat
      then (insert pointer (record q {
        store = set pointer (restart (clock q.tick) t) q.store;
        tick = suc q.tick;
      })).1
      else record q { deleted = q.deleted ++ pointer ∷ [] }

  abbrev pub rearm_for : List Entry → TimerQueue Callback → TimerQueue Callback
  rearm_for [] q = q
  rearm_for ((t, p) ∷ entries) q = reset_timerfd (q.store p).expiration q

  abbrev pub rearm : TimerQueue Callback → TimerQueue Callback
  rearm q = rearm_for q.timers q

  unfoldable pub reset : List Entry → TimerQueue Callback → TimerQueue Callback
  reset [] q = q
  reset ((t, p) ∷ expired) q = reset expired (rearm (renew p q))

  -- `run` is what a callback does, which may add timers.
  unfoldable pub run_all :
      (Callback → TimerQueue Callback → TimerQueue Callback)
      → List Entry
      → TimerQueue Callback
      → TimerQueue Callback
  run_all run [] q = q
  run_all run ((t, p) ∷ expired) q = run_all run expired (run (q.store p).callback q)

  unfoldable pub handle_read :
      (Callback → TimerQueue Callback → TimerQueue Callback)
      → TimerQueue Callback
      → TimerQueue Callback
  handle_read run q =
      let (expired, q1) = get_expired (clock q.tick) (record q { tick = suc q.tick }) in
      let q2 = run_all run expired (record q1 { calling_expired_timers = true }) in
      reset expired (record q2 { calling_expired_timers = false })
