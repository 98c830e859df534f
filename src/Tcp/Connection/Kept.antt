-- ===== src/Tcp/Connection/Kept.antt =====
-- What `sendInLoop` does with the rest of a message: nothing is left, or it goes to the output buffer.
use my_tiny_network_library.Base.{
  ℕ, ◌≡◌, ◌≤◌, ◌+◌, refl, sym, ap, ap₂, ◌∙◌, subst, arith, Bool, true, false, not, ◌&&◌, List, [],
  ◌∷◌, ◌++◌, append-nil, ltb, Bytes, length, take, drop, slice, length-drop, length-take, max_size,
  Bool-cases, inl, inr,
}
use my_tiny_network_library.Buffer.{append}
use my_tiny_network_library.Buffer.Inv.{IsValid, contents}
use my_tiny_network_library.Buffer.Contents.{append_lem}
use my_tiny_network_library.Reactor.Channel.{is_writing, want_writing}
use my_tiny_network_library.Reactor.Poller.{wanted, enable_writing}
use my_tiny_network_library.Tcp.Connection.{
  Connection, Effect, Attempt, keep_rest, start_writing, settle, only, updates, queues_high_water,
}
use my_tiny_network_library.Tcp.Connection.Flow.{
  written, Flow, Attempted, woven, taken_over, taken_over-fault, taken_over-whole, written-append,
}

-- what `keep_rest` comes to
record Kept (rest : Bytes) (c : Connection) (result : Connection × List Effect) : Type 0 where
  buffer : result.0.output_buffer ≡ append rest c.output_buffer
  writing : is_writing result.0.channel ≡ true
  silent : written result.1 ≡ []

start_writing-writing :
    (writing : Bool) (c : Connection) (effects : List Effect)
    → is_writing c.channel ≡ writing
    → is_writing (start_writing writing c effects).0.channel ≡ true
unfolding is_writing wanted want_writing
start_writing-writing true c effects e = e
start_writing-writing false c effects e = refl

start_writing-silent :
    (writing : Bool) (c : Connection) (effects : List Effect)
    → written effects ≡ []
    → written (start_writing writing c effects).1 ≡ []
start_writing-silent true c effects e = e
start_writing-silent false c effects e =
    written-append effects (updates enable_writing ∷ []) ∙ append-nil (written effects) ∙ e

start_writing-buffer :
    (writing : Bool) (c : Connection) (effects : List Effect)
    → (start_writing writing c effects).0.output_buffer ≡ c.output_buffer
start_writing-buffer true c effects = refl
start_writing-buffer false c effects = refl

written-warning : (b : Bool) (n : ℕ) → written (only b (queues_high_water n)) ≡ []
written-warning true n = refl
written-warning false n = refl

keep_rest-Kept :
    (message : Bytes) (a : Attempt) (c : Connection)
    → Kept (slice a.nwrote a.remaining message) c (keep_rest message a c)
unfolding keep_rest
keep_rest-Kept message a c = record {
  buffer = start_writing-buffer (is_writing c.channel) _ _;
  writing = start_writing-writing (is_writing c.channel) _ _ refl;
  silent = start_writing-silent (is_writing c.channel) _ _ (written-warning _ _);
}

pub settle-stops :
    (message : Bytes) (a : Attempt) (c : Connection)
    → (not a.fault_error && ltb 0 a.remaining) ≡ false
    → settle message a c ≡ (c, a.effects)
unfolding settle
settle-stops message a c e = rw (e, settle) refl

pub settle-keeps :
    (message : Bytes) (a : Attempt) (c : Connection)
    → (not a.fault_error && ltb 0 a.remaining) ≡ true
    → settle message a c ≡ ((keep_rest message a c).0, a.effects ++ (keep_rest message a c).1)
unfolding settle
settle-keeps message a c e = rw (e, settle) refl

-- what a pair of a connection and effects does to the stream
abbrev pub Flows : Bytes → Bytes → Connection × List Effect → Type 0
Flows sent out result = Flow sent (out ++ written result.1) result.0

-- nothing more to do: the message was lost in a fault, or the kernel took all of it
pub stopped-Flows :
    (message : Bytes) (a : Attempt) (c : Connection) (sent out : Bytes)
    → Attempted message a c
    → Flow sent out c
    → (not a.fault_error && ltb 0 a.remaining) ≡ false
    → Flows (sent ++ taken_over message a) out (c, a.effects)
stopped-Flows message a c sent out t h e = record {
  valid = h.valid;
  stream = elim (Bool-cases a.fault_error) [
    | inl lost ↦
        ap (λ w. (out ++ w) ++ contents c.output_buffer) (t.fault lost)
        ∙ ap (λ o. o ++ contents c.output_buffer) (append-nil out)
        ∙ h.stream
        ∙ sym (append-nil sent)
        ∙ ap (λ m. sent ++ m) (sym (taken_over-fault message a lost))
    | inr kept ↦
        let none_left : a.remaining ≡ 0 = ground arith in
        ap (λ l. (out ++ written a.effects) ++ l) (sym (append-nil (contents c.output_buffer)))
        ∙ woven out (written a.effects) (contents c.output_buffer) [] message sent t.first
            (ap (λ n. written a.effects ++ take n (drop a.nwrote message)) (sym none_left)
              ∙ t.split kept)
            h.stream
        ∙ ap (λ m. sent ++ m) (sym (taken_over-whole message a kept))
  ];
  still = h.still;
}

-- the rest is kept in the output buffer
pub kept-Flows :
    (message : Bytes) (a : Attempt) (c : Connection) (sent out : Bytes)
    → Attempted message a c
    → Flow sent out c
    → c.output_buffer.writer_index + length message ≤ max_size
    → a.fault_error ≡ false
    → Flows
        (sent ++ taken_over message a)
        out
        ((keep_rest message a c).0, a.effects ++ (keep_rest message a c).1)
kept-Flows message a c sent out t h room e =
    let rest = slice a.nwrote a.remaining message in
    let k = keep_rest-Kept message a c in
    let (valid, held) =
      append_lem rest c.output_buffer h.valid (omega (arith, room, length-rest)) in
    record {
      valid = subst IsValid (sym k.buffer) valid;
      stream =
          ap₂ (λ w b. (out ++ w) ++ contents b)
            (written-append a.effects (keep_rest message a c).1
              ∙ ap (λ l. written a.effects ++ l) k.silent
              ∙ append-nil (written a.effects))
            k.buffer
          ∙ ap (λ l. (out ++ written a.effects) ++ l) held
          ∙ woven out (written a.effects) (contents c.output_buffer) rest message sent t.first
              (t.split e) h.stream
          ∙ ap (λ m. sent ++ m) (sym (taken_over-whole message a e));
      still = λ _ idle. absurd (cc k.writing);
    }
  where
    length-rest : length (slice a.nwrote a.remaining message) ≤ length message
    length-rest =
        omega (arith, length-take a.remaining (drop a.nwrote message), length-drop a.nwrote message)
