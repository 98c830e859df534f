-- ===== src/Reactor/Loop.antt =====
-- src/muduo_core/EventLoop.h and EventLoop.cc: the functions that other threads queue for a loop, and
-- how they wake it. The counter of the eventfd goes up with a write, and a read sets it to 0. A
-- functor is what it queues when it runs.
pub mod System
pub mod Wakeups
use my_tiny_network_library.Base.{
  ℕ, suc, ◌+◌, Bool, true, false, not, ◌||◌, List, [], ◌∷◌, ◌++◌, if◌then◌else◌,
}

-- `functors` of `doPendingFunctors` is what is still to run of it.
pub record Loop (Functor : Type 0) : Type 0 where
  pub calling_pending_functors : Bool
  pub pending_functors : List Functor
  pub functors : List Functor
  pub counter : ℕ
  pub quit : Bool

module _ {Functor : Type 0} where
  unfoldable pub wakeup : Loop Functor → Loop Functor
  wakeup s = record s { counter = suc s.counter }

  -- the part of `queueInLoop` under the mutex
  unfoldable pub push : Functor → Loop Functor → Loop Functor
  push f s = record s { pending_functors = s.pending_functors ++ f ∷ [] }

  -- the condition for the wakeup
  unfoldable pub must_wake : Bool → Loop Functor → Bool
  must_wake in_thread s = not in_thread || s.calling_pending_functors

  unfoldable pub queue_in_loop : Bool → Functor → Loop Functor → Loop Functor
  queue_in_loop in_thread f s =
      let s' = push f s in if must_wake in_thread s' then wakeup s' else s'

  -- `runInLoop` of another thread; in the thread of the loop the functor is run at once
  unfoldable pub run_in_loop :
      Bool → (Functor → Loop Functor → Loop Functor) → Functor → Loop Functor → Loop Functor
  run_in_loop in_thread call f s = if in_thread then call f s else queue_in_loop false f s

  unfoldable pub handle_read : Loop Functor → Loop Functor
  handle_read s = record s { counter = 0 }

  unfoldable pub quit : Bool → Loop Functor → Loop Functor
  quit in_thread s = let s' = record s { quit = true } in if in_thread then s' else wakeup s'

  -- the first lines of `doPendingFunctors`, with the swap
  unfoldable pub begin_functors : Loop Functor → Loop Functor
  begin_functors s = record s {
    calling_pending_functors = true;
    functors = s.pending_functors;
    pending_functors = [];
  }

  -- the functors that one queues from within the loop's thread
  unfoldable pub queue_all : List Functor → Loop Functor → Loop Functor
  queue_all [] s = s
  queue_all (f ∷ fs) s = queue_all fs (queue_in_loop true f s)

  unfoldable pub end_functors : Loop Functor → Loop Functor
  end_functors s = record s { calling_pending_functors = false }
