-- ===== src/Reactor/Channel.antt =====
-- src/muduo_core/Channel.h and Channel.cc: the events that a descriptor waits for, and the callbacks
-- for those that came. A set of epoll bits is a record of them.
use my_tiny_network_library.Base.{
  ℕ, Bool, true, false, not, ◌&&◌, ◌||◌, List, [], ◌∷◌, ◌++◌, if◌then◌else◌, Bytes, codes,
}

-- EPOLLIN, EPOLLPRI, EPOLLOUT, EPOLLERR, EPOLLHUP and EPOLLRDHUP
pub record Events : Type 0 where
  pub input : Bool
  pub urgent : Bool
  pub output : Bool
  pub error : Bool
  pub hang_up : Bool
  pub peer_hang_up : Bool

abbrev pub none_event : Events
none_event = record {
  input = false;
  urgent = false;
  output = false;
  error = false;
  hang_up = false;
  peer_hang_up = false;
}

-- `index_`: kNew, kAdded and kDeleted
pub data Index : Type 0 where
  new added deleted : Index

-- The callbacks are whether they are set.
pub record Channel : Type 0 where
  pub fd : ℕ
  pub events : Events
  pub revents : Events
  pub index : Index
  pub tied : Bool
  pub has_read : Bool
  pub has_write : Bool
  pub has_close : Bool
  pub has_error : Bool

unfoldable pub init : ℕ → Channel
init fd = record {
  fd = fd;
  events = none_event;
  revents = none_event;
  index = new;
  tied = false;
  has_read = false;
  has_write = false;
  has_close = false;
  has_error = false;
}

-- The five changes of `events_`, each in front of `update()`.
unfoldable pub want_reading : Channel → Channel
want_reading c = record c { events = record c.events { input = true; urgent = true } }

unfoldable pub want_no_reading : Channel → Channel
want_no_reading c = record c { events = record c.events { input = false; urgent = false } }

unfoldable pub want_writing : Channel → Channel
want_writing c = record c { events = record c.events { output = true } }

unfoldable pub want_no_writing : Channel → Channel
want_no_writing c = record c { events = record c.events { output = false } }

unfoldable pub want_nothing : Channel → Channel
want_nothing c = record c { events = none_event }

unfoldable pub is_none_event : Channel → Bool
is_none_event c = not (
    c.events.input || c.events.urgent || c.events.output || c.events.error || c.events.hang_up
    || c.events.peer_hang_up)

unfoldable pub is_writing : Channel → Bool
is_writing c = c.events.output

unfoldable pub is_reading : Channel → Bool
is_reading c = c.events.input || c.events.urgent

unfoldable pub revents_to_string : Channel → Bytes
revents_to_string c =
    if c.revents.hang_up
    then codes "EPOLLHUP"
    else if c.revents.input
    then codes "EPOLLIN"
    else if c.revents.urgent
    then codes "EPOLLPRI"
    else if c.revents.output
    then codes "EPOLLOUT"
    else if c.revents.peer_hang_up
    then codes "EPOLLRDHUP"
    else if c.revents.error
    then codes "EPOLLERR"
    else codes "unknown event"

pub data Callback : Type 0 where
  closes errs reads writes : Callback

abbrev when : Bool → Callback → List Callback
when true callback = callback ∷ []
when false callback = []

-- the callbacks that are called, in order
unfoldable pub handle_event_with_guard : Channel → List Callback
handle_event_with_guard c =
    when (c.revents.hang_up && not c.revents.input && c.has_close) closes
    ++ (when (c.revents.error && c.has_error) errs
        ++ (when ((c.revents.input || c.revents.urgent) && c.has_read) reads
            ++ when (c.revents.output && c.has_write) writes))

-- `alive`: the object that the channel is tied to still exists
unfoldable pub handle_event : Bool → Channel → List Callback
handle_event alive c = if c.tied && not alive then [] else handle_event_with_guard c
