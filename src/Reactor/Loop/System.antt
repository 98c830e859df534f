-- ===== src/Reactor/Loop/System.antt =====
-- A loop with the threads that queue functions for it (EventLoop.cc), as steps in any order. `pushes`
-- and `wakes` are the two halves of `queueInLoop` in another thread. The system begins where `loop()`
-- enters `poll` for the first time, with nothing queued by then.
use my_tiny_network_library.Base.{ℕ, suc, ◌≡◌, true, false, List, [], ◌∷◌, ◌++◌, if◌then◌else◌}
use my_tiny_network_library.Reactor.Loop.{
  Loop, must_wake, wakeup, push, queue_in_loop, handle_read, begin_functors, queue_all,
  end_functors,
}

-- where the thread of the loop is: in `poll`, at the events, or in `doPendingFunctors`
pub data Phase : Type 0 where
  polling handling calling : Phase

-- `waking` counts the threads between their push and their wakeup; `queued` and `executed` keep the
-- record of what happened.
pub record System (Functor : Type 0) : Type 0 where
  pub loop : Loop Functor
  pub phase : Phase
  pub waking : ℕ
  pub queued : List Functor
  pub executed : List Functor

module _ {Functor : Type 0} (queues : Functor → List Functor) where
  pub data Step (s : System Functor) : System Functor → Type 0 where
    pushes :
        (f : Functor)
        → Step s (record s {
          loop = push f s.loop;
          waking = if must_wake false (push f s.loop) then suc s.waking else s.waking;
          queued = s.queued ++ f ∷ [];
        })
    wakes : (n : ℕ) → s.waking ≡ suc n → Step s (record s { loop = wakeup s.loop; waking = n })
    poll_returns : s.phase ≡ polling → Step s (record s { phase = handling })
    reads_counter : s.phase ≡ handling → Step s (record s { loop = handle_read s.loop })
    queues_here :
        (f : Functor)
        → s.phase ≡ handling
        → s.loop.calling_pending_functors ≡ false
        → Step s (record s { loop = queue_in_loop true f s.loop; queued = s.queued ++ f ∷ [] })
    begins :
        s.phase ≡ handling → Step s (record s { phase = calling; loop = begin_functors s.loop })
    runs :
        (f : Functor) (rest : List Functor)
        → s.phase ≡ calling
        → s.loop.functors ≡ f ∷ rest
        → Step s (record s {
          loop = queue_all (queues f) (record s.loop { functors = rest });
          executed = s.executed ++ f ∷ [];
          queued = s.queued ++ queues f;
        })
    ends :
        s.phase ≡ calling
        → s.loop.functors ≡ []
        → Step s (record s { phase = polling; loop = end_functors s.loop })

  pub data Reachable : System Functor → Type 0 where
    fresh : Reachable (record {
      loop = record {
        calling_pending_functors = false;
        pending_functors = [];
        functors = [];
        counter = 0;
        quit = false;
      };
      phase = polling;
      waking = 0;
      queued = [];
      executed = [];
    })
    next : (s t : System Functor) → Reachable s → Step s t → Reachable t
