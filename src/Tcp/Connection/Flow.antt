-- ===== src/Tcp/Connection/Flow.antt =====
-- The stream of bytes through a connection: what was sent is what the kernel took, and then what the
-- output buffer holds.
use my_tiny_network_library.Base.{
  ℕ, ◌≡◌, ◌≤◌, refl, sym, ap, ap₂, ◌∙◌, subst, arith, Bool, true, false, not, ◌&&◌, List, [], ◌∷◌,
  ◌++◌, append_assoc, append-nil, if◌then◌else◌, ◌==◌, Bytes, length, take, drop, slice, take-drop,
  take-all, length-drop, sub_size-eq, max_size, inl, inr, ◌⊎◌, sub_size,
}
use my_tiny_network_library.Buffer.{Buffer, IoResult, failed, moved, readable_bytes}
use my_tiny_network_library.Buffer.Inv.{IsValid, contents, length-contents-readable}
use my_tiny_network_library.Reactor.Channel.{is_writing}
use my_tiny_network_library.Tcp.Connection.{
  Connection, Effect, wrote, is_disconnected, Attempt, attempted, attempt, only,
  queues_write_complete, updates, removes, queues_high_water, queues_send, queues_shutdown,
  queues_stop_read, shuts_write, calls_connection, calls_message, calls_close,
}

-- the bytes that a list of effects hands to the kernel
abbrev pub written : List Effect → Bytes
written [] = []
written (wrote text ∷ effects) = text ++ written effects
written (_ ∷ effects) = written effects

pub record Flow (sent out : Bytes) (c : Connection) : Type 0 where
  pub valid : IsValid c.output_buffer
  pub stream : out ++ contents c.output_buffer ≡ sent
  pub still :
      is_disconnected c.state ≡ false → is_writing c.channel ≡ false → contents c.output_buffer ≡ []

-- what `write` promises: it takes a part of what it is given
abbrev pub TakesPart : (ℕ → Bytes → IoResult ℕ) → Type 0
TakesPart write = (fd : ℕ) (text : Bytes) (n : ℕ) → write fd text ≡ moved n → n ≤ length text

-- what the attempt to write at once leaves of a message
pub record Attempted (message : Bytes) (a : Attempt) (c : Connection) : Type 0 where
  pub split :
      a.fault_error ≡ false → written a.effects ++ slice a.nwrote a.remaining message ≡ message
  pub fault : a.fault_error ≡ true → written a.effects ≡ []
  pub first : (written a.effects ≡ []) ⊎ (contents c.output_buffer ≡ [])

written-only : (b : Bool) → written (only b queues_write_complete) ≡ []
written-only true = refl
written-only false = refl

whole_message : (message : Bytes) → slice 0 (length message) message ≡ message
whole_message message = take-all (length message) message (omega arith)

attempted-Attempted :
    (message : Bytes) (result : IoResult ℕ) (c : Connection)
    → ((n : ℕ) → result ≡ moved n → n ≤ length message)
    → length message ≤ max_size
    → contents c.output_buffer ≡ []
    → Attempted message (attempted message result c) c
unfolding attempted
attempted-Attempted message (failed errno) c h small e = record {
  split = λ _. whole_message message;
  fault = λ _. refl;
  first = inl refl;
}
attempted-Attempted message (moved n) c h small e = record {
  split = λ _.
      ap (λ l. (take n message ++ l) ++ slice n (sub_size (length message) n) message)
        (written-only (sub_size (length message) n == 0 && c.has_write_complete))
      ∙ ap (λ l. l ++ slice n (sub_size (length message) n) message) (append-nil (take n message))
      ∙ ap (λ l. take n message ++ l)
          (take-all (sub_size (length message) n) (drop n message) (
            omega (
              arith,
              h n refl,
              sub_size-eq (length message) n (h n refl) (omega arith),
              length-drop n message,
            )))
      ∙ take-drop n message;
  fault = λ no. cc;
  first = inr e;
}

-- how a message is woven into the stream
pub woven :
    (out w held rest message sent : Bytes)
    → (w ≡ []) ⊎ (held ≡ [])
    → w ++ rest ≡ message
    → out ++ held ≡ sent
    → (out ++ w) ++ (held ++ rest) ≡ sent ++ message
woven out w held rest message sent (inl e) k l =
    ap (λ w. (out ++ w) ++ (held ++ rest)) e
    ∙ ap (λ o. o ++ (held ++ rest)) (append-nil out)
    ∙ sym (append_assoc out held rest)
    ∙ ap₂ (λ a b. a ++ b) l (ap (λ w. w ++ rest) (sym e) ∙ k)
woven out w held rest message sent (inr e) k l =
    ap (λ h. (out ++ w) ++ (h ++ rest)) e
    ∙ append_assoc out w rest
    ∙ ap₂ (λ a b. a ++ b) (sym (append-nil out) ∙ ap (λ h. out ++ h) (sym e) ∙ l) k

-- an empty output buffer, by the count that the source asks for
pub empty-contents : (b : Buffer) → IsValid b → readable_bytes b ≡ 0 → contents b ≡ []
empty-contents b v e = nothing (contents b) (length-contents-readable b v ∙ e)
  where
    nothing : (text : Bytes) → length text ≡ 0 → text ≡ []
    nothing [] h = refl
    nothing (x ∷ text) h = absurd (omega arith)

-- the message is left whole
abbrev untried : Bytes → Attempt
untried message = record {
  nwrote = 0;
  remaining = length message;
  fault_error = false;
  effects = [];
}

attempt-now :
    (write : ℕ → Bytes → IoResult ℕ) (message : Bytes) (c : Connection)
    → (not (is_writing c.channel) && readable_bytes c.output_buffer == 0) ≡ true
    → attempt write message c ≡ attempted message (write c.channel.fd message) c
unfolding attempt
attempt-now write message c e = rw (e, attempt) refl

attempt-later :
    (write : ℕ → Bytes → IoResult ℕ) (message : Bytes) (c : Connection)
    → (not (is_writing c.channel) && readable_bytes c.output_buffer == 0) ≡ false
    → attempt write message c ≡ untried message
unfolding attempt
attempt-later write message c e = rw (e, attempt) refl

pub attempt-Attempted :
    (write : ℕ → Bytes → IoResult ℕ) (message : Bytes) (c : Connection)
    → TakesPart write
    → length message ≤ max_size
    → IsValid c.output_buffer
    → Attempted message (attempt write message c) c
attempt-Attempted write message c part small v = go _ refl
  where
    go :
        (now : Bool)
        → (not (is_writing c.channel) && readable_bytes c.output_buffer == 0) ≡ now
        → Attempted message (attempt write message c) c
    go true e =
        subst (λ a. Attempted message a c) (sym (attempt-now write message c e))
          (attempted-Attempted message (write c.channel.fd message) c
            (λ n k. part c.channel.fd message n k) small
            (empty-contents c.output_buffer v (ground arith)))
    go false e =
        subst (λ a. Attempted message a c) (sym (attempt-later write message c e))
          (record { split = λ _. whole_message message; fault = λ no. cc; first = inl refl })

-- the part of a message that the connection answers for
abbrev pub taken_over : Bytes → Attempt → Bytes
taken_over message a = if a.fault_error then [] else message

pub taken_over-fault :
    (message : Bytes) (a : Attempt) → a.fault_error ≡ true → taken_over message a ≡ []
taken_over-fault message a e = ground arith

pub taken_over-whole :
    (message : Bytes) (a : Attempt) → a.fault_error ≡ false → taken_over message a ≡ message
taken_over-whole message a e = ground arith

pub written-append :
    (first second : List Effect) → written (first ++ second) ≡ written first ++ written second
written-append [] second = refl
written-append (wrote text ∷ first) second =
    ap (λ l. text ++ l) (written-append first second)
    ∙ sym (append_assoc text (written first) (written second))
written-append (updates wish ∷ first) second = written-append first second
written-append (removes ∷ first) second = written-append first second
written-append (queues_write_complete ∷ first) second = written-append first second
written-append (queues_high_water n ∷ first) second = written-append first second
written-append (queues_send text ∷ first) second = written-append first second
written-append (queues_shutdown ∷ first) second = written-append first second
written-append (queues_stop_read ∷ first) second = written-append first second
written-append (shuts_write ∷ first) second = written-append first second
written-append (calls_connection ∷ first) second = written-append first second
written-append (calls_message time ∷ first) second = written-append first second
written-append (calls_close ∷ first) second = written-append first second
