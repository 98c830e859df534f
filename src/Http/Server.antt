-- ===== src/Http/Server.antt =====
-- src/http/HttpServer.h and HttpServer.cc: the requests of a connection, one after the other. The
-- buffer is an argument apart from the connection. The callbacks of the user are any functions on a
-- state of their own; the loop takes fuel.
pub mod Total
use my_tiny_network_library.Base.{
  ℕ, zero, suc, ◌+◌, Bool, true, false, not, ◌&&◌, ◌||◌, List, [], ◌∷◌, ◌++◌, Option, none, some,
  if◌then◌else◌, ◌==◌, Bytes, codes, equal,
}
use my_tiny_network_library.Buffer.{
  Buffer, IoResult, crlf, readable_bytes, initial_size, retrieve_all_as_string,
}
use my_tiny_network_library.Buffer
use my_tiny_network_library.Http.Request.{Request, Version, http10, get_header}
use my_tiny_network_library.Http.Response.{Response, not_found, append_to_buffer}
use my_tiny_network_library.Http.Response
use my_tiny_network_library.Http.Context.{
  Context, incomplete, complete, bad_request, request_too_large, ParseResult, parse_request, reset,
  Parsed,
}
use my_tiny_network_library.Http.Context
use my_tiny_network_library.Tcp.Connection.{Connection, Effect, is_connected, send, shutdown}

-- `httpCallback_`, and `asyncHttpCallback_` if it is set
pub record Callbacks (World : Type 0) : Type 0 where
  pub http : Request → Response → World → Response × World
  pub async : Option (Connection → Request → World → Bool × Connection × List Effect × World)

-- What the handlers work on: the connection, what it did, and the state of the callbacks.
pub record Served (World : Type 0) : Type 0 where
  pub connection : Connection
  pub effects : List Effect
  pub world : World

unfoldable pub default_http_callback : Request → Response → Response
default_http_callback req resp = record resp {
  status_code = not_found;
  status_message = codes "Not Found";
  close_connection = true;
}

abbrev is_http10 : Version → Bool
is_http10 http10 = true
is_http10 _ = false

-- close, or keep the connection?
unfoldable pub wants_close : Request → Bool
wants_close req =
    let connection = get_header (codes "Connection") req in
    equal connection (codes "close")
    || (is_http10 req.version && not (equal connection (codes "Keep-Alive")))

abbrev pub bad_request_text : Bytes
bad_request_text =
    codes "HTTP/1.1 400 Bad Request"
    ++ crlf
    ++ codes "Connection: close"
    ++ crlf
    ++ codes "Content-Length: 0"
    ++ crlf
    ++ crlf

abbrev pub too_large_text : Bytes
too_large_text =
    codes "HTTP/1.1 413 Payload Too Large"
    ++ crlf
    ++ codes "Connection: close"
    ++ crlf
    ++ codes "Content-Length: 0"
    ++ crlf
    ++ crlf

-- Where `onMessage` has come to: the context, the buffer and the rest.
abbrev pub Turned : Type 0 → Type 0
Turned World = Context × Buffer × Served World

-- behind a whole request: it returns, or goes on with the next
abbrev pub after_request :
    {World : Type 0}
    → (Context → Buffer → Served World → Option (Turned World))
    → Context
    → Buffer
    → Bool × Served World
    → Option (Turned World)
after_request resume c buf (true, s) = some (c, buf, s)
after_request resume c buf (false, s) =
    let more = resume c buf s in if readable_bytes buf == 0 then some (c, buf, s) else more

-- `none` stands for a connection without a context, which gets a new one.
abbrev pub context_of : Option Context → Context
context_of none = Context.init
context_of (some c) = c

module _ {World : Type 0} (write : ℕ → Bytes → IoResult ℕ) (callbacks : Callbacks World) where
  -- a call of the connection
  abbrev pub on_connection : (Connection → Connection × List Effect) → Served World → Served World
  on_connection call s =
      let (connection, effects) = call s.connection in
      record s { connection = connection; effects = s.effects ++ effects }

  abbrev pub refuse : Bytes → Served World → Served World
  refuse text s = on_connection (shutdown true) (on_connection (send write true text) s)

  -- the end of `onRequest`
  abbrev pub close_if : Bool → Served World → Bool × Served World
  close_if true s = (true, on_connection (shutdown true) s)
  close_if false s = (false, s)

  -- the response that the callback makes of a request, and what is left of it to do
  unfoldable pub respond : Request → Served World → Bool × Served World
  respond req s =
      let (response, world) = callbacks.http req (Response.init (wants_close req)) s.world in
      let buf = append_to_buffer response (Buffer.init 0 initial_size) in
      let text = (retrieve_all_as_string buf).0 in
      let sent = on_connection (send write true text) (record s { world = world }) in
      close_if response.close_connection sent

  -- `onRequest`: whether parsing stops
  abbrev pub request_by :
      Option (Connection → Request → World → Bool × Connection × List Effect × World)
      → Request
      → Served World
      → Bool × Served World
  request_by none req s = respond req s
  request_by (some async) req s =
      let (taken, connection, effects, world) = async s.connection req s.world in
      let s' = record s {
        connection = connection;
        effects = s.effects ++ effects;
        world = world;
      } in
      if taken then (true, s') else respond req s'

  unfoldable pub on_request : Request → Served World → Bool × Served World
  on_request req s = request_by callbacks.async req s

  abbrev pub turn :
      (Context → Buffer → Served World → Option (Turned World))
      → Parsed Buffer
      → Served World
      → Option (Turned World)
  turn resume (incomplete, c, buf) s = some (c, buf, s)
  turn resume (bad_request, c, buf) s = some (c, buf, refuse bad_request_text s)
  turn resume (request_too_large, c, buf) s = some (c, buf, refuse too_large_text s)
  turn resume (complete, c, buf) s =
      after_request resume (Context.reset c) buf (on_request c.request s)

  abbrev pub turn_of :
      (Context → Buffer → Served World → Option (Turned World))
      → Option (Parsed Buffer)
      → Served World
      → Option (Turned World)
  turn_of resume none s = none
  turn_of resume (some out) s = turn resume out s

  unfoldable pub message_loop : ℕ → ℕ → Context → Buffer → Served World → Option (Turned World)
  message_loop zero time c buf s = none
  message_loop (suc fuel) time c buf s =
      if is_connected s.connection.state
      then turn_of (message_loop fuel time) (parse_request time c buf) s
      else some (c, buf, s)

  unfoldable pub on_message : ℕ → Option Context → Buffer → Served World → Option (Turned World)
  on_message time context buf s =
      message_loop (readable_bytes buf + 2) time (context_of context) buf s
