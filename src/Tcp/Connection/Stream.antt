-- ===== src/Tcp/Connection/Stream.antt =====
-- `sendInLoop`, `handleWrite` and `shutdown` and the stream of bytes.
use my_tiny_network_library.Base.{
  ℕ, ◌≡◌, ◌≤◌, ◌+◌, refl, sym, ap, ◌∙◌, subst, arith, Bool, true, false, not, ◌&&◌, ◌||◌, ◌==◌,
  Bool-cases, inl, inr, List, [], ◌++◌, append-nil, if◌then◌else◌, ltb, Bytes, length, max_size,
}
use my_tiny_network_library.Buffer.{IoResult, moved, failed, readable_bytes}
use my_tiny_network_library.Reactor.Channel.{is_writing}
use my_tiny_network_library.Buffer.Inv.{contents}
use my_tiny_network_library.Tcp.Connection.{
  Connection, Effect, is_disconnected, Attempt, attempt, attempted, settle, send_in_loop,
}
use my_tiny_network_library.Tcp.Connection.Kept.{
  settle-stops, settle-keeps, Flows, stopped-Flows, kept-Flows,
}
use my_tiny_network_library.Tcp.Connection.Flow.{
  written, Flow, TakesPart, Attempted, attempt-Attempted, taken_over,
}

-- EPIPE and ECONNRESET
abbrev loses : IoResult ℕ → Bool
loses (moved n) = false
loses (failed errno) = errno == 32 || errno == 104

-- is the message written at once, and lost?
abbrev lost : (ℕ → Bytes → IoResult ℕ) → Bytes → Connection → Bool
lost write message c =
    not (is_writing c.channel)
    && readable_bytes c.output_buffer == 0
    && loses (write c.channel.fd message)

-- What a call of `sendInLoop` lets into the stream: the message, but nothing on a closed connection
-- or where the write at once fails with EPIPE or ECONNRESET.
abbrev pub accepted : (ℕ → Bytes → IoResult ℕ) → Bytes → Connection → Bytes
accepted write message c =
    if is_disconnected c.state then [] else if lost write message c then [] else message

attempted-lost :
    (message : Bytes) (result : IoResult ℕ) (c : Connection)
    → (attempted message result c).fault_error ≡ loses result
unfolding attempted
attempted-lost message (moved n) c = refl
attempted-lost message (failed errno) c = ground arith

-- the flag of the source is set just where the message is lost
fault-lost :
    (write : ℕ → Bytes → IoResult ℕ) (message : Bytes) (c : Connection)
    → (attempt write message c).fault_error ≡ lost write message c
unfolding attempt
fault-lost write message c =
    elim (Bool-cases (not (is_writing c.channel) && readable_bytes c.output_buffer == 0)) [
      | inl e ↦ rw e (attempted-lost message (write c.channel.fd message) c)
      | inr e ↦ rw e refl
    ]

settle-Flows :
    (write : ℕ → Bytes → IoResult ℕ) (message : Bytes) (c : Connection) (sent out : Bytes)
    → TakesPart write
    → Flow sent out c
    → c.output_buffer.writer_index + length message ≤ max_size
    → Flows
        (sent ++ taken_over message (attempt write message c))
        out
        (settle message (attempt write message c) c)
settle-Flows write message c sent out part h room = go _ refl
  where
    a : Attempt
    a = attempt write message c

    t : Attempted message a c
    t = attempt-Attempted write message c part (omega arith) h.valid

    go :
        (keeps : Bool)
        → (not a.fault_error && ltb 0 a.remaining) ≡ keeps
        → Flows (sent ++ taken_over message a) out (settle message a c)
    go true e =
        subst (Flows (sent ++ taken_over message a) out) (sym (settle-keeps message a c e))
          (kept-Flows message a c sent out t h room (ground arith))
    go false e =
        subst (Flows (sent ++ taken_over message a) out) (sym (settle-stops message a c e))
          (stopped-Flows message a c sent out t h e)

pub unmoved : (c : Connection) (sent out : Bytes) → Flow sent out c → Flows sent out (c, [])
unmoved c sent out h = record {
  valid = h.valid;
  stream = ap (λ o. o ++ contents c.output_buffer) (append-nil out) ∙ h.stream;
  still = h.still;
}

-- the same call, its parts given by equations
alike :
    (sent out a b : Bytes) (r q : Connection × List Effect)
    → a ≡ b
    → r ≡ q
    → Flows (sent ++ b) out q
    → Flows (sent ++ a) out r
alike sent out a b r q e k h =
    subst (λ l. Flows (sent ++ l) out r) (sym e) (subst (Flows (sent ++ b) out) (sym k) h)

closed-accepted :
    (write : ℕ → Bytes → IoResult ℕ) (message : Bytes) (c : Connection)
    → is_disconnected c.state ≡ true
    → accepted write message c ≡ []
closed-accepted write message c e = rw e refl

open-accepted :
    (write : ℕ → Bytes → IoResult ℕ) (message : Bytes) (c : Connection)
    → is_disconnected c.state ≡ false
    → accepted write message c ≡ taken_over message (attempt write message c)
open-accepted write message c e = rw (e, fault-lost write message c) refl

closed-send_in_loop :
    (write : ℕ → Bytes → IoResult ℕ) (message : Bytes) (c : Connection)
    → is_disconnected c.state ≡ true
    → send_in_loop write message c ≡ (c, [])
unfolding send_in_loop
closed-send_in_loop write message c e = rw (e, send_in_loop) refl

open-send_in_loop :
    (write : ℕ → Bytes → IoResult ℕ) (message : Bytes) (c : Connection)
    → is_disconnected c.state ≡ false
    → send_in_loop write message c ≡ settle message (attempt write message c) c
unfolding send_in_loop
open-send_in_loop write message c e = rw (e, send_in_loop) refl

-- `sendInLoop` keeps the stream in order: when the bytes that the kernel took so far and the output
-- buffer are together what was sent, then they are so again with the message behind it, unless the
-- connection is closed or the write fails with EPIPE or ECONNRESET, which leave the stream as it was;
-- for a kernel that takes a part of what it is given, and a message that fits into a vector.
pub send_in_loop-Flow :
    (write : ℕ → Bytes → IoResult ℕ) (message : Bytes) (c : Connection) (sent out : Bytes)
    → TakesPart write
    → Flow sent out c
    → c.output_buffer.writer_index + length message ≤ max_size
    → let (c', effects) = send_in_loop write message c in
      Flow (sent ++ accepted write message c) (out ++ written effects) c'
send_in_loop-Flow write message c sent out part h room = go _ refl
  where
    go :
        (closed : Bool)
        → is_disconnected c.state ≡ closed
        → Flows (sent ++ accepted write message c) out (send_in_loop write message c)
    go true e =
        alike sent out _ [] _ (c, []) (closed-accepted write message c e)
          (closed-send_in_loop write message c e)
          (subst (λ s. Flows s out (c, [])) (sym (append-nil sent)) (unmoved c sent out h))
    go false e =
        alike sent out _ _ _ _ (open-accepted write message c e)
          (open-send_in_loop write message c e) (settle-Flows write message c sent out part h room)
