-- ===== src/Reactor/Tests.antt =====
-- Runs of the poller over an interest list that is a function, and its theorems there.
use my_tiny_network_library.Base.{
  ℕ, ◌≡◌, ◌≢◌, refl, Bool, true, false, Option, none, some, set, set_here, set_elsewhere, is_some,
  List, [], ◌∷◌, ◌++◌, ◌<◌, ◌+◌, ◌⊎◌,
}
use my_tiny_network_library.Reactor.Loop.{push, must_wake}
use my_tiny_network_library.Reactor.Loop.System.{System, polling, pushes, Reachable, fresh, next}
use my_tiny_network_library.Reactor.Loop.Wakeups.{Reachable-awake, Reachable-order}
use my_tiny_network_library.Reactor.Channel
use my_tiny_network_library.Reactor.Channel.{Channel, Events, none_event}
use my_tiny_network_library.Reactor.Poller.{
  Epoll, Poller, Operation, ctl_add, ctl_mod, ctl_del, enable_reading, wanted, change,
}
use my_tiny_network_library.Reactor.Poller.Settles.{EpollLaws, Fails}
use my_tiny_network_library.Reactor.Poller.Sync.{InSync, change-InSync}

abbrev control : Operation → ℕ → Events → ℕ → (ℕ → Option Events) → Bool × (ℕ → Option Events)
control ctl_add fd events channel k = (true, set fd (some events) k)
control ctl_mod fd events channel k = (is_some (k fd), set fd (some events) k)
control ctl_del fd events channel k = (is_some (k fd), set fd none k)

abbrev epoll : Epoll (ℕ → Option Events)
epoll = record { epoll_ctl = control; interest = λ k. k }

control-spares :
    (operation : Operation) (fd other : ℕ) (events : Events) (channel : ℕ) (k : ℕ → Option Events)
    → other ≢ fd
    → (control operation fd events channel k).1 other ≡ k other
control-spares ctl_add fd other events channel k h = set_elsewhere fd other (some events) k h
control-spares ctl_mod fd other events channel k h = set_elsewhere fd other (some events) k h
control-spares ctl_del fd other events channel k h = set_elsewhere fd other none k h

epoll-EpollLaws : EpollLaws epoll
epoll-EpollLaws = record {
  adds = λ fd events channel k e fine. set_here fd (some events) k;
  changes = λ fd events old channel k e fine. set_here fd (some events) k;
  removes = λ fd events old channel k e. set_here fd none k;
  spares = control-spares;
}

-- channels on their own descriptors, none of them added
abbrev idle : Poller (ℕ → Option Events)
idle = record {
  store = λ c. record (Channel.init c) { has_read = true };
  channels = λ fd. none;
  event_room = 16;
  kernel = λ fd. none;
}

idle-InSync : InSync epoll idle
unfolding Channel.init
idle-InSync = record { distinct = λ c d e. e; listed = λ c. refl; strays = λ fd h. refl }

change-InSync_example :
    ((change epoll enable_reading 5 idle ≡ none)
      × Fails epoll (wanted enable_reading (idle.store 5)) 5 idle.kernel)
    ⊎ ((q : Poller (ℕ → Option Events)) × (change epoll enable_reading 5 idle ≡ some q)
        × ((q.store 5).events ≡ (wanted enable_reading (idle.store 5)).events)
        × InSync epoll q)
change-InSync_example = change-InSync epoll enable_reading 5 idle epoll-EpollLaws idle-InSync

-- another thread has queued 7 and has not written to the eventfd yet, and the loop is in `poll`
abbrev no_queues : ℕ → List ℕ
no_queues f = []

abbrev at_start : System ℕ
at_start = record {
  loop = record {
    calling_pending_functors = false;
    pending_functors = [];
    functors = [];
    counter = 0;
    quit = false;
  };
  phase = polling;
  waking = 0;
  queued = [];
  executed = [];
}

abbrev pushed : System ℕ
pushed = record at_start { loop = push 7 at_start.loop; waking = 1; queued = 7 ∷ [] }

pushed-Reachable : Reachable no_queues pushed
unfolding push must_wake
pushed-Reachable = next at_start pushed fresh (pushes 7)

pushed-some : pushed.loop.pending_functors ≢ []
unfolding push
pushed-some e = cc

Reachable-awake_example : 0 < pushed.loop.counter + pushed.waking
Reachable-awake_example = Reachable-awake no_queues pushed pushed-Reachable refl pushed-some

Reachable-order_example :
    pushed.queued ≡ pushed.executed ++ (pushed.loop.functors ++ pushed.loop.pending_functors)
Reachable-order_example = Reachable-order no_queues pushed pushed-Reachable
