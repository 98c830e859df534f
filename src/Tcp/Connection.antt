-- ===== src/Tcp/Connection.antt =====
-- src/muduo_core/TcpConnection.h and TcpConnection.cc. What a function does outside the connection is
-- a list of effects, in order. A function that the source hands to `runInLoop` has an argument that
-- says whether the caller is the thread of the loop. `write` and `readv` are arguments.
pub mod Flow
pub mod Kept
pub mod Stream
pub mod Written
pub mod Writing
use my_tiny_network_library.Base.{
  ℕ, ◌*◌, Bool, true, false, not, ◌&&◌, ◌||◌, List, [], ◌∷◌, ◌++◌, Option, none, some,
  if◌then◌else◌, ltb, leb, ◌==◌, Bytes, length, take, slice, add_size, sub_size,
}
use my_tiny_network_library.Buffer.{
  Buffer, IoResult, failed, moved, readable_bytes, append, retrieve, read_fd, write_fd,
  initial_size,
}
use my_tiny_network_library.Buffer
use my_tiny_network_library.Reactor.Channel.{Channel, is_writing}
use my_tiny_network_library.Reactor.Channel
use my_tiny_network_library.Reactor.Poller.{
  Change, enable_reading, disable_reading, enable_writing, disable_writing, disable_all, wanted,
}

-- kDisconnected, kConnecting, kConnected and kDisconnecting
pub data State : Type 0 where
  disconnected connecting connected disconnecting : State

pub record Connection : Type 0 where
  pub state : State
  pub reading : Bool
  pub channel : Channel
  pub has_write_complete : Bool
  pub has_high_water : Bool
  pub high_water_mark : ℕ
  pub input_buffer : Buffer
  pub output_buffer : Buffer

pub data Effect : Type 0 where
  wrote : Bytes → Effect
  updates : Change → Effect
  removes : Effect
  queues_write_complete : Effect
  queues_high_water : ℕ → Effect
  queues_send : Bytes → Effect
  queues_shutdown : Effect
  queues_stop_read : Effect
  shuts_write : Effect
  calls_connection : Effect
  calls_message : ℕ → Effect
  calls_close : Effect

-- The constructor, with the first values of the descriptors in the two buffers.
unfoldable pub init : ℕ → ℕ → ℕ → Connection
init fd a b = record {
  state = connecting;
  reading = true;
  channel = record (Channel.init fd) {
    has_read = true;
    has_write = true;
    has_close = true;
    has_error = true;
  };
  has_write_complete = false;
  has_high_water = false;
  high_water_mark = 64 * 1024 * 1024;
  input_buffer = Buffer.init a initial_size;
  output_buffer = Buffer.init b initial_size;
}

abbrev pub is_connected : State → Bool
is_connected connected = true
is_connected _ = false

abbrev pub is_disconnected : State → Bool
is_disconnected disconnected = true
is_disconnected _ = false

abbrev pub is_disconnecting : State → Bool
is_disconnecting disconnecting = true
is_disconnecting _ = false

-- EWOULDBLOCK, EPIPE and ECONNRESET
abbrev pub would_block : ℕ
would_block = 11

abbrev pub is_fault : ℕ → Bool
is_fault errno = not (errno == would_block) && (errno == 32 || errno == 104)

-- a call of the channel that changes its events
abbrev pub change : Change → Connection → Connection
change wish c = record c { channel = wanted wish c.channel }

abbrev pub only : Bool → Effect → List Effect
only true effect = effect ∷ []
only false effect = []

-- The variables of `sendInLoop` behind the attempt to write at once.
pub record Attempt : Type 0 where
  pub nwrote : ℕ
  pub remaining : ℕ
  pub fault_error : Bool
  pub effects : List Effect

unfoldable pub attempted : Bytes → IoResult ℕ → Connection → Attempt
attempted message (moved n) c =
    let remaining = sub_size (length message) n in
    record {
      nwrote = n;
      remaining = remaining;
      fault_error = false;
      effects =
          wrote (take n message)
          ∷ only (remaining == 0 && c.has_write_complete) queues_write_complete;
    }
attempted message (failed errno) c = record {
  nwrote = 0;
  remaining = length message;
  fault_error = is_fault errno;
  effects = [];
}

unfoldable pub attempt : (ℕ → Bytes → IoResult ℕ) → Bytes → Connection → Attempt
attempt write message c =
    if not (is_writing c.channel) && readable_bytes c.output_buffer == 0
    then attempted message (write c.channel.fd message) c
    else record { nwrote = 0; remaining = length message; fault_error = false; effects = [] }

-- writing is enabled unless it is
abbrev pub start_writing : Bool → Connection → List Effect → Connection × List Effect
start_writing true c effects = (c, effects)
start_writing false c effects = (change enable_writing c, effects ++ updates enable_writing ∷ [])

-- the rest of the message goes to the output buffer
unfoldable pub keep_rest : Bytes → Attempt → Connection → Connection × List Effect
keep_rest message a c =
    let old = readable_bytes c.output_buffer in
    let total = add_size old a.remaining in
    let filled = record c {
      output_buffer = append (slice a.nwrote a.remaining message) c.output_buffer;
    } in
    let warning =
      only (leb c.high_water_mark total && ltb old c.high_water_mark && c.has_high_water)
        (queues_high_water total) in
    start_writing (is_writing c.channel) filled warning

-- the two halves of `sendInLoop`
unfoldable pub settle : Bytes → Attempt → Connection → Connection × List Effect
settle message a c =
    let (c', effects) = keep_rest message a c in
    if not a.fault_error && ltb 0 a.remaining then (c', a.effects ++ effects) else (c, a.effects)

unfoldable pub send_in_loop :
    (ℕ → Bytes → IoResult ℕ) → Bytes → Connection → Connection × List Effect
send_in_loop write message c =
    if is_disconnected c.state then (c, []) else settle message (attempt write message c) c

unfoldable pub send :
    (ℕ → Bytes → IoResult ℕ) → Bool → Bytes → Connection → Connection × List Effect
send write in_loop message c =
    if not (is_connected c.state)
    then (c, [])
    else if in_loop
    then send_in_loop write message c
    else (c, queues_send message ∷ [])

unfoldable pub shutdown_in_loop : Connection → Connection × List Effect
shutdown_in_loop c = if is_writing c.channel then (c, []) else (c, shuts_write ∷ [])

unfoldable pub shutdown : Bool → Connection → Connection × List Effect
shutdown in_loop c =
    let c' = record c { state = disconnecting } in
    if not (is_connected c.state)
    then (c, [])
    else if in_loop
    then shutdown_in_loop c'
    else (c', queues_shutdown ∷ [])

unfoldable pub stop_read_in_loop : Connection → Connection × List Effect
stop_read_in_loop c =
    if c.reading
    then (change disable_reading (record c { reading = false }), updates disable_reading ∷ [])
    else (c, [])

unfoldable pub stop_read : Bool → Connection → Connection × List Effect
stop_read in_loop c = if in_loop then stop_read_in_loop c else (c, queues_stop_read ∷ [])

unfoldable pub connect_established : Connection → Connection × List Effect
connect_established c =
    let c' = record c { state = connected; channel = record c.channel { tied = true } } in
    (change enable_reading c', updates enable_reading ∷ calls_connection ∷ [])

unfoldable pub connect_destroyed : Connection → Connection × List Effect
connect_destroyed c =
    if is_connected c.state
    then (
      change disable_all (record c { state = disconnected }),
      updates disable_all ∷ calls_connection ∷ removes ∷ [],
    )
    else (c, removes ∷ [])

unfoldable pub handle_close : Connection → Connection × List Effect
handle_close c = (
  change disable_all (record c { state = disconnected }),
  updates disable_all ∷ calls_connection ∷ calls_close ∷ [],
)

-- what `handleRead` does with the result of `readFd`; `handleError` only writes to the log
unfoldable pub was_read : ℕ → IoResult ℕ → Connection → Connection × List Effect
was_read time (failed errno) c = (c, [])
was_read time (moved n) c = if n == 0 then handle_close c else (c, calls_message time ∷ [])

unfoldable pub handle_read :
    (ℕ → List ℕ → IoResult Bytes) → ℕ → Connection → Connection × List Effect
handle_read readv time c =
    let (result, buffer) = read_fd readv c.channel.fd c.input_buffer in
    was_read time result (record c { input_buffer = buffer })

-- behind the last byte of the output buffer
unfoldable pub drained : Connection → Connection × List Effect
drained c =
    let c' = change disable_writing c in
    let (c'', effects) = shutdown_in_loop c' in
    let first = updates disable_writing ∷ only c.has_write_complete queues_write_complete in
    if is_disconnecting c.state then (c'', first ++ effects) else (c', first)

-- what `handleWrite` does with the result of `writeFd`
unfoldable pub was_written : IoResult ℕ → Connection → Connection × List Effect
was_written (failed errno) c = (c, [])
was_written (moved n) c =
    let c' = record c { output_buffer = retrieve n c.output_buffer } in
    let sent = wrote (Buffer.peek c.output_buffer n) in
    let (c'', effects) = drained c' in
    if n == 0
    then (c, [])
    else if readable_bytes c'.output_buffer == 0
    then (c'', sent ∷ effects)
    else (c', sent ∷ [])

unfoldable pub handle_write : (ℕ → Bytes → IoResult ℕ) → Connection → Connection × List Effect
handle_write write c =
    if is_writing c.channel
    then was_written (write_fd write c.channel.fd c.output_buffer) c
    else (c, [])
