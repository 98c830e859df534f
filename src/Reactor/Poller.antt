-- ===== src/Reactor/Poller.antt =====
-- src/muduo_core/Poller.h, Poller.cc, EPollPoller.h and EPollPoller.cc. A pointer to a channel is a
-- number, and the store holds the channel behind each; the maps are functions. The epoll instance
-- and the two system calls on it are parameters.
pub mod Settles
pub mod Sync
use my_tiny_network_library.Base.{
  ℕ, ◌*◌, Bool, true, false, List, [], ◌∷◌, Option, none, some, if◌then◌else◌, ◌==◌, set, length,
  ltb,
}
use my_tiny_network_library.Reactor.Channel.{
  Channel, Events, Index, new, added, deleted, is_none_event, want_reading, want_no_reading,
  want_writing, want_no_writing, want_nothing,
}

-- EPOLL_CTL_ADD, EPOLL_CTL_MOD and EPOLL_CTL_DEL
pub data Operation : Type 0 where
  ctl_add ctl_mod ctl_del : Operation

-- `epoll_ctl` returns whether it succeeded. An event carries the pointer to its channel.
pub record Epoll (Kernel : Type 0) : Type 0 where
  pub epoll_ctl : Operation → ℕ → Events → ℕ → Kernel → Bool × Kernel
  pub interest : Kernel → ℕ → Option Events

-- The poller, with the channels of its loop. `event_room` is the size of `events_`.
pub record Poller (Kernel : Type 0) : Type 0 where
  pub store : ℕ → Channel
  pub channels : ℕ → Option ℕ
  pub event_room : ℕ
  pub kernel : Kernel

-- the functions of a channel that change what it waits for
pub data Change : Type 0 where
  enable_reading disable_reading enable_writing disable_writing disable_all : Change

unfoldable pub wanted : Change → Channel → Channel
unfolding want_reading want_no_reading want_writing want_no_writing want_nothing
wanted enable_reading c = want_reading c
wanted disable_reading c = want_no_reading c
wanted enable_writing c = want_writing c
wanted disable_writing c = want_no_writing c
wanted disable_all c = want_nothing c

abbrev pub is_del : Operation → Bool
is_del ctl_del = true
is_del _ = false

unfoldable pub fill_active_channels : List (ℕ × Events) → (ℕ → Channel) → (ℕ → Channel)
fill_active_channels [] store = store
fill_active_channels ((channel, events) ∷ rest) store =
    fill_active_channels rest (set channel (record (store channel) { revents = events }) store)

abbrev pointers : List (ℕ × Events) → List ℕ
pointers [] = []
pointers ((channel, _) ∷ rest) = channel ∷ pointers rest

module _ {Kernel : Type 0} (epoll : Epoll Kernel) where
  -- The channel is an argument beside its pointer. `none`: a failed addition or change ends the
  -- process. A failed removal is logged.
  unfoldable pub update : Operation → Channel → ℕ → Poller Kernel → Option (Poller Kernel)
  update operation c channel p =
      let (fine, kernel) = epoll.epoll_ctl operation c.fd c.events channel p.kernel in
      if fine
      then some (record p { kernel = kernel })
      else if is_del operation
      then some (record p { kernel = kernel })
      else none

  abbrev pub set_index : Index → ℕ → Poller Kernel → Poller Kernel
  set_index index channel p = record p {
    store = set channel (record (p.store channel) { index = index }) p.store;
  }

  -- `channel->set_index(index)` behind an update
  abbrev pub then_index : Index → ℕ → Option (Poller Kernel) → Option (Poller Kernel)
  then_index index channel none = none
  then_index index channel (some p) = some (set_index index channel p)

  unfoldable pub update_added : ℕ → Poller Kernel → Option (Poller Kernel)
  update_added channel p =
      if is_none_event (p.store channel)
      then then_index deleted channel (update ctl_del (p.store channel) channel p)
      else update ctl_mod (p.store channel) channel p

  -- the branches of `updateChannel`
  abbrev pub update_by : Index → ℕ → Poller Kernel → Option (Poller Kernel)
  update_by new channel p = update ctl_add (p.store channel) channel (
      set_index added channel
        (record p { channels = set (p.store channel).fd (some channel) p.channels }))
  update_by deleted channel p = update ctl_add (p.store channel) channel (set_index added channel p)
  update_by added channel p = update_added channel p

  unfoldable pub update_channel : ℕ → Poller Kernel → Option (Poller Kernel)
  update_channel channel p = update_by (p.store channel).index channel p

  -- what `removeChannel` does behind `channels_.erase(fd)`
  abbrev pub remove_by : Index → ℕ → Poller Kernel → Option (Poller Kernel)
  remove_by added channel p = then_index new channel (update ctl_del (p.store channel) channel p)
  remove_by _ channel p = some (set_index new channel p)

  unfoldable pub remove_channel : ℕ → Poller Kernel → Option (Poller Kernel)
  remove_channel channel p =
      remove_by (p.store channel).index channel
        (record p { channels = set (p.store channel).fd none p.channels })

  unfoldable pub has_channel : ℕ → Poller Kernel → Bool
  has_channel channel p = elim (p.channels (p.store channel).fd) [
    | none ↦ false
    | some c ↦ c == channel
  ]

  -- `poll`, with what `epoll_wait` returned: the active channels, and the poller.
  unfoldable pub poll : List (ℕ × Events) → Poller Kernel → List ℕ × Poller Kernel
  poll events p = (
    pointers events,
    record p {
      store = fill_active_channels events p.store;
      event_room =
          if ltb 0 (length events)
          then (if length events == p.event_room then p.event_room * 2 else p.event_room)
          else p.event_room;
    },
  )

  -- `enableReading()` and the like: a change of `events_`, and `update()` through the loop
  unfoldable pub change : Change → ℕ → Poller Kernel → Option (Poller Kernel)
  change wish channel p =
      update_channel channel
        (record p { store = set channel (wanted wish (p.store channel)) p.store })
