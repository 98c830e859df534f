-- ===== src/Tcp/Connection/Written.antt =====
-- The branches of `handleWrite`, and what is written behind its own write.
use my_tiny_network_library.Base.{
  ℕ, ◌≡◌, ◌≤◌, refl, ap, ap₂, ◌∙◌, arith, Bool, true, false, [], ◌∷◌, ◌++◌, append_assoc,
  append-nil, ◌==◌, Bytes, length, take, drop, take-drop, Bool-cases, inl, inr,
}
use my_tiny_network_library.Buffer.{
  Buffer, IoResult, failed, moved, readable_bytes, retrieve, write_fd,
}
use my_tiny_network_library.Buffer
use my_tiny_network_library.Buffer.Inv.{IsValid, contents, length-contents}
use my_tiny_network_library.Buffer.Contents.{contents-retrieve, peek-contents}
use my_tiny_network_library.Reactor.Channel.{is_writing}
use my_tiny_network_library.Reactor.Poller.{disable_writing}
use my_tiny_network_library.Tcp.Connection.{
  Connection, wrote, updates, queues_write_complete, is_disconnecting, only, change, drained,
  was_written, shutdown_in_loop,
}
use my_tiny_network_library.Tcp.Connection.Flow.{written, written-append}

-- `drained` leaves the output buffer, and hands nothing to the kernel
pub drained-buffer : (c : Connection) → (drained c).0.output_buffer ≡ c.output_buffer
unfolding drained shutdown_in_loop
drained-buffer c = ground arith

written-first : (b : Bool) → written (updates disable_writing ∷ only b queues_write_complete) ≡ []
written-first true = refl
written-first false = refl

written-shutdown_in_loop : (c : Connection) → written (shutdown_in_loop c).1 ≡ []
unfolding shutdown_in_loop
written-shutdown_in_loop c = elim (Bool-cases (is_writing c.channel)) [
  | inl e ↦ rw (e, shutdown_in_loop) refl
  | inr e ↦ rw (e, shutdown_in_loop) refl
]

drained-disconnecting :
    (c : Connection)
    → is_disconnecting c.state ≡ true
    → (drained c).1
      ≡ (updates disable_writing ∷ only c.has_write_complete queues_write_complete)
        ++ (shutdown_in_loop (change disable_writing c)).1
unfolding drained
drained-disconnecting c e = ground arith

drained-open :
    (c : Connection)
    → is_disconnecting c.state ≡ false
    → (drained c).1 ≡ updates disable_writing ∷ only c.has_write_complete queues_write_complete
unfolding drained
drained-open c e = ground arith

pub written-drained : (c : Connection) → written (drained c).1 ≡ []
written-drained c = elim (Bool-cases (is_disconnecting c.state)) [
  | inl e ↦
      ap written (drained-disconnecting c e)
      ∙ written-append (updates disable_writing ∷ only c.has_write_complete queues_write_complete)
          (shutdown_in_loop (change disable_writing c)).1
      ∙ ap₂ (λ a b. a ++ b) (written-first c.has_write_complete)
          (written-shutdown_in_loop (change disable_writing c))
  | inr e ↦ ap written (drained-open c e) ∙ written-first c.has_write_complete
]

-- the kernel took a part of the output buffer
pub taken-stream :
    (n : ℕ) (b : Buffer) (sent out rest : Bytes)
    → IsValid b
    → n ≤ length (contents b)
    → out ++ contents b ≡ sent
    → rest ≡ []
    → (out ++ (Buffer.peek b n ++ rest)) ++ contents (retrieve n b) ≡ sent
taken-stream n b sent out rest v k h e =
    ap (λ r. (out ++ (Buffer.peek b n ++ r)) ++ contents (retrieve n b)) e
    ∙ ap (λ l. (out ++ l) ++ contents (retrieve n b)) (append-nil (Buffer.peek b n))
    ∙ ap₂ (λ l r. (out ++ l) ++ r) (peek-contents n b (omega (arith, k, length-contents b v)))
        (contents-retrieve n b v)
    ∙ append_assoc out (take n (contents b)) (drop n (contents b))
    ∙ ap (λ l. out ++ l) (take-drop n (contents b))
    ∙ h

-- the buffer without the bytes that the kernel took
abbrev pub shorter : ℕ → Connection → Connection
shorter n c = record c { output_buffer = retrieve n c.output_buffer }

pub was_written-none :
    (n : ℕ) (c : Connection) → (n == 0) ≡ true → was_written (moved n) c ≡ (c, [])
unfolding was_written
was_written-none n c e = rw (e, was_written) refl

pub was_written-drained :
    (n : ℕ) (c : Connection)
    → (n == 0) ≡ false
    → (readable_bytes (retrieve n c.output_buffer) == 0) ≡ true
    → was_written (moved n) c ≡ (
      (drained (shorter n c)).0,
      wrote (Buffer.peek c.output_buffer n) ∷ (drained (shorter n c)).1,
    )
unfolding was_written
was_written-drained n c e k = rw (e, k, was_written) refl

pub was_written-left :
    (n : ℕ) (c : Connection)
    → (n == 0) ≡ false
    → (readable_bytes (retrieve n c.output_buffer) == 0) ≡ false
    → was_written (moved n) c ≡ (shorter n c, wrote (Buffer.peek c.output_buffer n) ∷ [])
unfolding was_written
was_written-left n c e k = rw (e, k, was_written) refl
