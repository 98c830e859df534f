-- ===== src/Tcp/Connection/Writing.antt =====
-- `handleWrite` and `shutdown`: what is left in the output buffer goes out, and then the half close.
use my_tiny_network_library.Base.{
  ℕ, ◌≡◌, ◌≤◌, refl, sym, ap, ◌∙◌, subst, arith, Bool, true, false, List, [], ◌∷◌, ◌++◌, append-nil,
  ◌==◌, ==_iff, Bytes, length, length-take,
}
use my_tiny_network_library.Buffer.{
  Buffer, IoResult, failed, moved, readable_bytes, retrieve, write_fd,
}
use my_tiny_network_library.Buffer
use my_tiny_network_library.Buffer.Inv.{IsValid, contents, retrieve-IsValid, readable_bytes-eq}
use my_tiny_network_library.Buffer.Contents.{peek-contents}
use my_tiny_network_library.Reactor.Channel.{is_writing}
use my_tiny_network_library.Tcp.Connection.{
  Connection, Effect, shuts_write, drained, was_written, handle_write, shutdown_in_loop, shutdown,
}
use my_tiny_network_library.Tcp.Connection.Kept.{Flows}
use my_tiny_network_library.Tcp.Connection.Flow.{written, Flow, TakesPart, empty-contents}
use my_tiny_network_library.Tcp.Connection.Stream.{unmoved}
use my_tiny_network_library.Tcp.Connection.Written.{
  drained-buffer, written-drained, taken-stream, was_written-none, was_written-drained,
  was_written-left, shorter,
}

was_written-Flows :
    (result : IoResult ℕ) (c : Connection) (sent out : Bytes)
    → Flow sent out c
    → is_writing c.channel ≡ true
    → ((n : ℕ) → result ≡ moved n → n ≤ length (contents c.output_buffer))
    → Flows sent out (was_written result c)
unfolding was_written
was_written-Flows (failed errno) c sent out h w part = unmoved c sent out h
was_written-Flows (moved n) c sent out h w part = go _ _ refl refl
  where
    text : Bytes
    text = Buffer.peek c.output_buffer n

    v : IsValid (retrieve n c.output_buffer)
    v = retrieve-IsValid n c.output_buffer h.valid

    go :
        (none_taken nothing_left : Bool)
        → (n == 0) ≡ none_taken
        → (readable_bytes (retrieve n c.output_buffer) == 0) ≡ nothing_left
        → Flows sent out (was_written (moved n) c)
    go true left e k = subst (Flows sent out) (sym (was_written-none n c e)) (unmoved c sent out h)
    go false true e k = subst (Flows sent out) (sym (was_written-drained n c e k)) (record {
      valid = subst IsValid (sym (drained-buffer (shorter n c))) v;
      stream =
          ap (λ b. (out ++ (text ++ written (drained (shorter n c)).1)) ++ contents b)
            (drained-buffer (shorter n c))
          ∙ taken-stream n c.output_buffer sent out _ h.valid (part n refl) h.stream
              (written-drained (shorter n c));
      still =
          λ _ _. ap contents (drained-buffer (shorter n c)) ∙ empty-contents _ v ((==_iff _ 0).0 k);
    })
    go false false e k = subst (Flows sent out) (sym (was_written-left n c e k)) (record {
      valid = v;
      stream = taken-stream n c.output_buffer sent out [] h.valid (part n refl) h.stream refl;
      still = λ _ idle. absurd (cc w);
    })

write_fd-part :
    (write : ℕ → Bytes → IoResult ℕ) (fd : ℕ) (b : Buffer) (n : ℕ)
    → TakesPart write
    → IsValid b
    → write_fd write fd b ≡ moved n
    → n ≤ length (contents b)
unfolding write_fd
write_fd-part write fd b n part v e = omega (
  arith,
  part fd (Buffer.peek b (readable_bytes b)) n e,
  ap length (peek-contents (readable_bytes b) b (omega (arith, readable_bytes-eq b v))),
  length-take (readable_bytes b) (contents b),
)

handle_write-idle :
    (write : ℕ → Bytes → IoResult ℕ) (c : Connection)
    → is_writing c.channel ≡ false
    → handle_write write c ≡ (c, [])
unfolding handle_write
handle_write-idle write c e = rw (e, handle_write) refl

handle_write-writing :
    (write : ℕ → Bytes → IoResult ℕ) (c : Connection)
    → is_writing c.channel ≡ true
    → handle_write write c ≡ was_written (write_fd write c.channel.fd c.output_buffer) c
unfolding handle_write
handle_write-writing write c e = rw (e, handle_write) refl

-- `handleWrite` keeps the stream in order: whatever part of the output buffer the kernel takes, or if
-- it takes none, the bytes that it took so far and the output buffer are together what was sent.
pub handle_write-Flow :
    (write : ℕ → Bytes → IoResult ℕ) (c : Connection) (sent out : Bytes)
    → TakesPart write
    → Flow sent out c
    → let (c', effects) = handle_write write c in Flow sent (out ++ written effects) c'
handle_write-Flow write c sent out part h = go _ refl
  where
    go : (w : Bool) → is_writing c.channel ≡ w → Flows sent out (handle_write write c)
    go true e = subst (Flows sent out) (sym (handle_write-writing write c e)) (
        was_written-Flows _ c sent out h e
          (λ n k. write_fd-part write c.channel.fd c.output_buffer n part h.valid k))
    go false e = subst (Flows sent out) (sym (handle_write-idle write c e)) (unmoved c sent out h)

-- Is the writing side of the socket shut down among these effects?
abbrev pub shuts : List Effect → Bool
shuts [] = false
shuts (shuts_write ∷ effects) = true
shuts (_ ∷ effects) = shuts effects

was_written-shuts :
    (result : IoResult ℕ) (c : Connection)
    → IsValid c.output_buffer
    → shuts (was_written result c).1 ≡ true
    → contents (was_written result c).0.output_buffer ≡ []
unfolding was_written
was_written-shuts (failed errno) c v h = cc
was_written-shuts (moved n) c v h = go _ _ refl refl
  where
    go :
        (none_taken nothing_left : Bool)
        → (n == 0) ≡ none_taken
        → (readable_bytes (retrieve n c.output_buffer) == 0) ≡ nothing_left
        → contents (was_written (moved n) c).0.output_buffer ≡ []
    go true left e k = absurd (cc (ap (λ p. shuts p.1) (was_written-none n c e)))
    go false true e k =
        ap (λ p. contents p.0.output_buffer) (was_written-drained n c e k)
        ∙ ap contents (drained-buffer (shorter n c))
        ∙ empty-contents _ (retrieve-IsValid n c.output_buffer v) ((==_iff _ 0).0 k)
    go false false e k = absurd (cc (ap (λ p. shuts p.1) (was_written-left n c e k)))

all_out : (out left sent : Bytes) → left ≡ [] → out ++ left ≡ sent → out ≡ sent
all_out out left sent e h = sym (append-nil out) ∙ ap (λ l. out ++ l) (sym e) ∙ h

-- The writing side of the socket is shut down by `handleWrite` only when the kernel has taken all
-- that was sent.
pub handle_write-shuts :
    (write : ℕ → Bytes → IoResult ℕ) (c : Connection) (sent out : Bytes)
    → TakesPart write
    → Flow sent out c
    → shuts (handle_write write c).1 ≡ true
    → out ++ written (handle_write write c).1 ≡ sent
handle_write-shuts write c sent out part h s =
    all_out _ (contents (handle_write write c).0.output_buffer) sent (go _ refl)
      (handle_write-Flow write c sent out part h).stream
  where
    go :
        (w : Bool) → is_writing c.channel ≡ w → contents (handle_write write c).0.output_buffer ≡ []
    go true e =
        ap (λ p. contents p.0.output_buffer) (handle_write-writing write c e)
        ∙ was_written-shuts _ c h.valid
            (sym (ap (λ p. shuts p.1) (handle_write-writing write c e)) ∙ s)
    go false e = absurd (cc (ap (λ p. shuts p.1) (handle_write-idle write c e)))

-- So it is when a connection shuts down in the thread of its loop.
pub shutdown-shuts :
    (c : Connection) (sent out : Bytes)
    → Flow sent out c
    → shuts (shutdown true c).1 ≡ true
    → out ≡ sent
unfolding shutdown shutdown_in_loop
shutdown-shuts c sent out h s =
    all_out out (contents c.output_buffer) sent (h.still (ground arith) (ground arith)) h.stream
