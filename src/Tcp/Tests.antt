-- ===== src/Tcp/Tests.antt =====
-- Runs of a connection over a kernel that takes three bytes at a time, and its theorems there.
use my_tiny_network_library.Base.{
  ℕ, ◌≡◌, ◌+◌, refl, arith, true, false, List, [], ◌∷◌, ◌++◌, Bytes, codes, if◌then◌else◌, leb,
  length, add_size, sub_size, replicate,
}
use my_tiny_network_library.Buffer.{
  Buffer, IoResult, moved, append, readable_bytes, writable_bytes, ensure_writeable_bytes,
  make_space, retrieve, retrieve_all, peek, write_fd, prependable_bytes,
}
use my_tiny_network_library.Reactor.Channel
use my_tiny_network_library.Reactor.Channel.{Channel, is_writing, want_writing, want_no_writing}
use my_tiny_network_library.Reactor.Poller.{wanted, enable_writing}
use my_tiny_network_library.Tcp.Connection.{
  Connection, connected, Effect, wrote, updates, send_in_loop, attempted, attempt, keep_rest,
  settle, handle_write, was_written, drained, shutdown, shutdown_in_loop,
}
use my_tiny_network_library.Tcp.Connection.Flow.{Flow, TakesPart, written}
use my_tiny_network_library.Tcp.Connection.Stream.{accepted, send_in_loop-Flow}
use my_tiny_network_library.Tcp.Connection.Writing.{handle_write-Flow, handle_write-shuts, shuts}

abbrev room : ℕ → Buffer
room n = record { fd = 0; buffer = replicate (8 + n) 0; reader_index = 8; writer_index = 8 }

abbrev open_connection : Connection
open_connection = record {
  state = connected;
  reading = true;
  channel = record {
    fd = 7;
    events = record {
      input = true;
      urgent = true;
      output = false;
      error = false;
      hang_up = false;
      peer_hang_up = false;
    };
    revents = Channel.none_event;
    index = Channel.added;
    tied = true;
    has_read = true;
    has_write = true;
    has_close = true;
    has_error = true;
  };
  has_write_complete = false;
  has_high_water = false;
  high_water_mark = 64;
  input_buffer = room 8;
  output_buffer = room 8;
}

-- three bytes at a time
three : ℕ → Bytes → IoResult ℕ
three fd text = if leb 3 (length text) then moved 3 else moved (length text)

three-TakesPart : TakesPart three
unfolding three
three-TakesPart fd text n e = ground arith

open_connection-Flow : Flow [] [] open_connection
unfolding is_writing
open_connection-Flow = record { valid = omega arith; stream = refl; still = λ _ _. refl }

send_in_loop-Flow_example :
    let (c', effects) = send_in_loop three (codes "hello") open_connection in
    Flow ([] ++ accepted three (codes "hello") open_connection) ([] ++ written effects) c'
send_in_loop-Flow_example =
    send_in_loop-Flow three (codes "hello") open_connection [] [] three-TakesPart
      open_connection-Flow (omega arith)

-- the connection with all that it calls open
sends : Bytes → Connection → Connection × List Effect
unfolding send_in_loop attempt attempted keep_rest settle is_writing three handle_write was_written
    drained shutdown shutdown_in_loop wanted want_writing want_no_writing readable_bytes
    writable_bytes prependable_bytes append ensure_writeable_bytes make_space retrieve retrieve_all
    peek write_fd add_size sub_size
sends = send_in_loop three

-- two bytes are left for the next event
abbrev half_sent : Connection
half_sent = (send_in_loop three (codes "hello") open_connection).0

sent_so_far :
    (send_in_loop three (codes "hello") open_connection).1
    ≡ wrote (codes "hel") ∷ updates enable_writing ∷ []
unfolding sends
sent_so_far = refl

half_sent-Flow : Flow (codes "hello") (codes "hel") half_sent
unfolding sends
half_sent-Flow = send_in_loop-Flow_example

handle_write-Flow_example :
    let (c', effects) = handle_write three half_sent in
    Flow (codes "hello") (codes "hel" ++ written effects) c'
handle_write-Flow_example =
    handle_write-Flow three half_sent (codes "hello") (codes "hel") three-TakesPart half_sent-Flow

-- it is asked to shut down with the two bytes left
abbrev closing : Connection
closing = (shutdown true half_sent).0

closing-Flow : Flow (codes "hello") (codes "hel") closing
unfolding sends
closing-Flow = record {
  valid = half_sent-Flow.valid;
  stream = half_sent-Flow.stream;
  still = λ _ idle. absurd (cc idle);
}

closing-shuts : shuts (handle_write three closing).1 ≡ true
unfolding sends
closing-shuts = refl

handle_write-shuts_example : codes "hel" ++ written (handle_write three closing).1 ≡ codes "hello"
handle_write-shuts_example =
    handle_write-shuts three closing (codes "hello") (codes "hel") three-TakesPart closing-Flow
      closing-shuts

abbrev all_sent : Connection
all_sent = (handle_write three half_sent).0

all_sent-Flow : Flow (codes "hello") (codes "hello") all_sent
unfolding sends
all_sent-Flow = handle_write-Flow_example

all_sent-shuts : shuts (shutdown true all_sent).1 ≡ true
unfolding sends
all_sent-shuts = refl
