-- ===== src/Http/Server/Total.antt =====
-- `onMessage` returns, and where it leaves a connection.
use my_tiny_network_library.Base.{
  ℕ, zero, suc, ◌+◌, ◌≤◌, ◌<◌, ◌≡◌, refl, sym, ap, ◌∙◌, arith, Bool, true, false, [], Option, none,
  some, if◌then◌else◌, ◌==◌, Bool-cases, inl, inr, ◌⊎◌, length, Bytes, subst, ==_iff,
}
use my_tiny_network_library.Buffer.{Buffer, IoResult, readable_bytes}
use my_tiny_network_library.Buffer.Inv.{IsValid, contents, length-contents-readable}
use my_tiny_network_library.Http.Context.{
  Context, incomplete, complete, bad_request, request_too_large, Parsed, reads_lines, reset,
}
use my_tiny_network_library.Http.Context.Chunks.{parse_request_total}
use my_tiny_network_library.Http.Context.Consumed.{parse_request-Shrinks}
use my_tiny_network_library.Http.Server.{
  Callbacks, Served, Turned, on_request, request_by, respond, close_if, after_request, turn,
  message_loop, on_message, context_of,
}
use my_tiny_network_library.Tcp.Connection.{Connection, is_connected, shutdown, shutdown_in_loop}
use my_tiny_network_library.Tcp.Connection.Flow.{empty-contents}
use my_tiny_network_library.Http.Context.Waiting.{InLimits, Waits}
use my_tiny_network_library.Http.Request.{Request}
use my_tiny_network_library.Http.Context.Promise.{parse_request-Waits}

-- How many rounds a context may take over so many unread bytes.
need : Context → Buffer → ℕ
need c buf = length (contents buf) + (if reads_lines c.state then 1 else 2)

-- What `onMessage` leaves behind: a valid buffer; and unless the connection is closing or an
-- asynchronous callback is set, the parser asks for more or nothing is unread.
abbrev pub Rests : {World : Type 0} → Callbacks World → Turned World → Type 0
Rests callbacks (c, buf, s) =
    IsValid buf
    × (is_connected s.connection.state ≡ true
        → callbacks.async ≡ none
        → Waits c (contents buf) ⊎ (contents buf ≡ []))

shutdown-closed : (c : Connection) → is_connected (shutdown true c).0.state ≡ false
unfolding shutdown shutdown_in_loop
shutdown-closed c = ground arith

reset-InLimits : (c : Context) → InLimits (reset c)
unfolding reset
reset-InLimits c = record { unfinished = λ e. cc; headers = omega arith; body = λ e. cc }

need-some : (c : Context) (buf : Buffer) → need c buf ≤ 0 → ⊥
unfolding need
need-some c buf h = ground arith

need-most : (c : Context) (buf : Buffer) → IsValid buf → need c buf ≤ readable_bytes buf + 2
unfolding need
need-most c buf v = ground (arith, length-contents-readable buf v)

-- the next request takes a round less
need-reset :
    (fuel : ℕ) (c c' : Context) (buf buf' : Buffer)
    → need c buf ≤ suc fuel
    → length (contents buf') ≤ length (contents buf)
    → (reads_lines c.state ≡ true → length (contents buf') < length (contents buf))
    → need (reset c') buf' ≤ fuel
unfolding need reset
need-reset fuel c c' buf buf' h less strict = elim (Bool-cases (reads_lines c.state)) [
  | inl e ↦ let few = strict e in omega (arith, rw e at h)
  | inr e ↦ omega (arith, rw e at h)
]

module _ {World : Type 0} (write : ℕ → Bytes → IoResult ℕ) (callbacks : Callbacks World) where
  abbrev Returns : Option (Turned World) → Type 0
  Returns o = (out : Turned World) × (o ≡ some out) × Rests callbacks out

  close_if-closed :
      (close : Bool) (s : Served World)
      → (close_if write callbacks close s).0 ≡ true
      → is_connected (close_if write callbacks close s).1.connection.state ≡ false
  close_if-closed true s e = shutdown-closed s.connection
  close_if-closed false s e = cc

  respond-closed :
      (req : Request) (s : Served World)
      → (respond write callbacks req s).0 ≡ true
      → is_connected (respond write callbacks req s).1.connection.state ≡ false
  unfolding respond
  respond-closed req s e = close_if-closed _ _ e

  on_request-closed :
      (req : Request) (s : Served World)
      → callbacks.async ≡ none
      → (on_request write callbacks req s).0 ≡ true
      → is_connected (on_request write callbacks req s).1.connection.state ≡ false
  unfolding on_request
  on_request-closed req s a e =
      subst
        (λ o.
          (request_by write callbacks o req s).0 ≡ true
          → is_connected (request_by write callbacks o req s).1.connection.state ≡ false)
        (sym a) (respond-closed req s) e

  after_request-Returns :
      (resume : Context → Buffer → Served World → Option (Turned World)) (c : Context)
      (buf : Buffer) (done : Bool × Served World)
      → IsValid buf
      → (callbacks.async ≡ none → done.0 ≡ true → is_connected done.1.connection.state ≡ false)
      → ((s : Served World) → Returns (resume c buf s))
      → Returns (after_request resume c buf done)
  after_request-Returns resume c buf (true, s) v closed h =
      ((c, buf, s), refl, (v, λ open_now a. absurd (cc (closed a refl))))
  after_request-Returns resume c buf (false, s) v closed h =
      elim (Bool-cases (readable_bytes buf == 0)) [
        | inl e ↦ (
          (c, buf, s),
          rw e refl,
          (v, λ _ _. inr (empty-contents buf v ((==_iff (readable_bytes buf) 0).0 e))),
        )
        | inr e ↦ let (out, p, r) = h s in (out, rw e p, r)
      ]

  turn-Returns :
      (resume : Context → Buffer → Served World → Option (Turned World)) (out : Parsed Buffer)
      (s : Served World)
      → IsValid out.2
      → (out.0 ≡ incomplete → Waits out.1 (contents out.2))
      → (out.0 ≡ complete → (s : Served World) → Returns (resume (reset out.1) out.2 s))
      → Returns (turn write callbacks resume out s)
  turn-Returns resume (incomplete, c, buf) s v waits h =
      ((c, buf, s), refl, (v, λ _ _. inl (waits refl)))
  turn-Returns resume (bad_request, c, buf) s v waits h =
      (_, refl, (v, λ open_now _. absurd (cc (shutdown-closed _, open_now))))
  turn-Returns resume (request_too_large, c, buf) s v waits h =
      (_, refl, (v, λ open_now _. absurd (cc (shutdown-closed _, open_now))))
  turn-Returns resume (complete, c, buf) s v waits h =
      after_request-Returns resume (reset c) buf (on_request write callbacks c.request s) v
        (on_request-closed c.request s) (h refl)

  message_loop-Returns :
      (fuel time : ℕ) (c : Context) (buf : Buffer) (s : Served World)
      → IsValid buf
      → InLimits c
      → need c buf ≤ fuel
      → Returns (message_loop write callbacks fuel time c buf s)
  unfolding message_loop
  message_loop-Returns zero time c buf s v limits h = absurd (need-some c buf h)
  message_loop-Returns (suc fuel) time c buf s v limits h =
      elim (Bool-cases (is_connected s.connection.state)) [
        | inl e ↦
            let (out, p) = parse_request_total time c buf v in
            let (v', (less, strict)) = parse_request-Shrinks time c buf out v p in
            let (last, q, r) =
              turn-Returns (message_loop write callbacks fuel time) out s v'
                (λ i.
                  (parse_request-Waits time c out.1 buf out.2 v limits
                    (p ∙ ap (λ result. some (result, out.1, out.2)) i)).1)
                (λ k s'.
                  message_loop-Returns fuel time (reset out.1) out.2 s' v' (reset-InLimits out.1)
                    (need-reset fuel c out.1 buf out.2 h less (strict k))) in
            (last, rw (e, p) q, r)
        | inr e ↦ ((c, buf, s), rw e refl, (v, λ open_now _. cc))
      ]

  -- `onMessage` returns over every valid buffer, whatever it holds: its loop ends. It leaves a valid
  -- buffer; and unless the connection is no longer open or an asynchronous callback is set, either the
  -- parser waits for more, within its limits, or nothing is unread: no request is left behind.
  pub on_message-Rests :
      (time : ℕ) (context : Option Context) (buf : Buffer) (s : Served World)
      → IsValid buf
      → InLimits (context_of context)
      → (out : Turned World) × (on_message write callbacks time context buf s ≡ some out)
        × Rests callbacks out
  unfolding on_message
  on_message-Rests time context buf s v limits =
      message_loop-Returns (readable_bytes buf + 2) time (context_of context) buf s v limits
        (need-most (context_of context) buf v)
