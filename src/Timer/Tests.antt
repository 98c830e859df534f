-- ===== src/Timer/Tests.antt =====
-- Runs of a timer queue, and its theorems there.
use my_tiny_network_library.Base.{ℕ, ◌≡◌, ◌≤◌, ◌<◌, refl, arith, false, [], ◌∷◌, ◌++◌, some, All}
use my_tiny_network_library.Timer.{Timer, TimerQueue, get_expired, add_timer_in_loop}
use my_tiny_network_library.Timer.Order.{InOrder}
use my_tiny_network_library.Timer.Queue.{
  IsQueue, FirstSet, get_expired_lem, add_timer_in_loop-IsQueue,
}

-- the timer at pointer p expires at p microseconds
abbrev store : ℕ → Timer ℕ
store p = record { callback = p; expiration = p; interval = 0; repeat = false }

abbrev queue : TimerQueue ℕ
queue = record {
  timers = (300, 300) ∷ (900, 900) ∷ [];
  store = store;
  armed = some (300, (0, 250000));
  calling_expired_timers = false;
  deleted = [];
  tick = 1;
}

queue-IsQueue : IsQueue queue
queue-IsQueue = record {
  ordered = ((refl, tt), (tt, tt));
  keyed = ((refl, omega arith), ((refl, omega arith), tt));
}

get_expired_example :
    let (expired, q') = get_expired 500 queue in
    (expired ++ q'.timers ≡ queue.timers)
    × All (λ e. e.0 ≤ 500) expired
    × All (λ e. 500 < e.0) q'.timers
    × InOrder q'.timers
get_expired_example = get_expired_lem 500 queue queue-IsQueue

add_timer_in_loop-IsQueue_example :
    IsQueue (add_timer_in_loop (λ n. 50) 200 queue)
    × (let q = add_timer_in_loop (λ n. 50) 200 queue in FirstSet (λ n. 50) q.tick q.timers q.armed)
add_timer_in_loop-IsQueue_example =
    add_timer_in_loop-IsQueue (λ n. 50) 200 queue queue-IsQueue
      (0, omega arith, 0, 250000, refl, (omega arith, omega arith)) (omega arith)
