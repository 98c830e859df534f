-- ===== src/Http/Context.antt =====
-- src/http/HttpContext.h and HttpContext.cc: the incremental request parser. A loop takes fuel, and
-- `none` says that it ran out.
pub mod Spec
pub mod Refine
pub mod Steps
pub mod Limits
pub mod Incremental
pub mod Times
pub mod Chunks
pub mod Waiting
pub mod Body
pub mod Promise
pub mod Consumed
mod Tests
use my_tiny_network_library.Base.{
  ℕ, zero, suc, ◌+◌, ◌-◌, ◌*◌, Bool, true, false, not, ◌&&◌, ◌||◌, List, [], ◌∷◌, ◌++◌, Option,
  none, some, if◌then◌else◌, ltb, leb, ◌==◌, length, take, drop, slice, Bytes, codes, equal,
  is_empty, break_at, add_size, size_mod,
}
use my_tiny_network_library.Buffer.{
  Buffer, crlf, find_crlf, readable_bytes, peek, retrieve_until, retrieve_as_string,
}
use my_tiny_network_library.Http.Chars.{lower, trim, find_from, c_string, strtoull}
use my_tiny_network_library.Http.Request.{
  Request, UploadedFile, http10, http11, set_method, add_header, get_header, add_body_form,
  add_file,
}
use my_tiny_network_library.Http.Request
use my_tiny_network_library.Http.Multipart.{parse_multipart_body}

abbrev pub max_header_bytes : ℕ
max_header_bytes = 16 * 1024

abbrev pub max_body_bytes : ℕ
max_body_bytes = 10 * 1024 * 1024

pub data ParseResult : Type 0 where
  incomplete complete bad_request request_too_large : ParseResult

pub data ParseState : Type 0 where
  expect_request_line expect_headers expect_body got_all : ParseState

pub record Context : Type 0 where
  pub state : ParseState
  pub request : Request
  pub header_bytes : ℕ
  pub content_length : ℕ

unfoldable pub init : Context
init = record {
  state = expect_request_line;
  request = Request.init;
  header_bytes = 0;
  content_length = 0;
}

unfoldable pub got_all? : Context → Bool
got_all? c = elim c.state [ got_all ↦ true | _ ↦ false ]

-- `swap` with a new request leaves that in the context.
unfoldable pub reset : Context → Context
reset c = record c {
  state = expect_request_line;
  header_bytes = 0;
  content_length = 0;
  request = (Request.swap c.request Request.init).0;
}

-- The version, from the text behind the second blank.
unfoldable pub process_version : Bytes → Request → Bool × Request
process_version text r =
    if not (length text == 8) || not (equal (take 7 text) (codes "HTTP/1."))
    then (false, r)
    else if equal (drop 7 text) (codes "1")
    then (true, record r { version = http11 })
    else if equal (drop 7 text) (codes "0")
    then (true, record r { version = http10 })
    else (false, r)

abbrev set_query : Option Bytes → Request → Request
set_query none r = r
set_query (some query) r = record r { query = query }

-- The path and the query, from the text between the two blanks.
unfoldable pub process_target : Bytes → Request → Request
process_target target r =
    let (path, query) = break_at b'?' target in set_query query (record r { path = path })

-- The request is changed as far as the line was read, also where the line is refused.
unfoldable pub process_request_line : Bytes → Request → Bool × Request
process_request_line line r =
    let (method, rest) = break_at b' ' line in
    elim rest [
      | none ↦ (false, r)
      | some rest ↦
          let (known, r1) = set_method method r in
          let (target, tail) = break_at b' ' rest in
          if not known then (false, r1) else elim tail [
            | none ↦ (false, r1)
            | some version ↦ process_version version (process_target target r1)
          ]
    ]

-- Whether the header is acceptable, and `contentLength_`.
unfoldable pub prepare_body : Context → Bool × Context
prepare_body c =
    let value = get_header (codes "Content-Length") c.request in
    if is_empty value
    then (true, record c { content_length = 0 })
    else (let parsed = strtoull (c_string value) in
        if parsed.range_error
          || not parsed.moved
          || not (is_empty parsed.rest)
          || ltb (size_mod - 1) parsed.value
        then (false, c)
        else (true, record c { content_length = parsed.value }))

-- What a line comes to: the parser goes on, or returns.
pub data LineResult : Type 0 where
  goes_on bad_line too_large : LineResult

-- the request line
unfoldable pub first_line : ℕ → Bytes → Context → LineResult × Context
first_line time line c =
    let (fine, r) = process_request_line line c.request in
    if fine
    then (goes_on, record c { request = record r { receive_time = time }; state = expect_headers })
    else (bad_line, record c { request = r })

-- a header line, or the empty line that ends the headers
unfoldable pub header_line : Bytes → Context → LineResult × Context
header_line line c =
    let (field, value) = break_at b':' line in
    let (fine, c') = prepare_body c in
    elim value [
      | some value ↦ (goes_on, record c { request = add_header field value c.request })
      | none ↦
          if not (is_empty line)
          then (bad_line, c)
          else if not fine
          then (bad_line, c')
          else if ltb max_body_bytes c'.content_length
          then (too_large, c')
          else (goes_on, record c' { state = expect_body })
    ]

-- A line without its CRLF, in one of the two states that read lines.
unfoldable pub process_line : ℕ → Bytes → Context → LineResult × Context
process_line time line c =
    let c' = record c { header_bytes = add_size c.header_bytes (length line + 2) } in
    if ltb max_header_bytes c'.header_bytes
    then (too_large, c')
    else elim c.state [ expect_request_line ↦ first_line time line c' | _ ↦ header_line line c' ]

-- the state in which the body is read, with enough bytes at hand
unfoldable pub take_body : Bytes → Context → Option (ParseResult × Context)
take_body body c = elim (parse_multipart_body (record c.request { body = body })) [
  | none ↦ none
  | some (true, r) ↦ some (complete, record c { request = r; state = got_all })
  | some (false, r) ↦ some (bad_request, record c { request = r })
]

abbrev pub reads_lines : ParseState → Bool
reads_lines expect_request_line = true
reads_lines expect_headers = true
reads_lines _ = false

-- What a call of `parseRequest` leaves: its result, the context and the buffer.
abbrev pub Parsed : Type 0 → Type 0
Parsed S = ParseResult × Context × S

abbrev pub over_limit : Context → ℕ → ParseResult
over_limit c unread =
    if ltb max_header_bytes (add_size c.header_bytes unread) then request_too_large else incomplete

-- a result of `take_body` beside what is unread
abbrev pub beside : {S : Type 0} → S → Option (ParseResult × Context) → Option (Parsed S)
beside s none = none
beside s (some (result, c)) = some (result, c, s)

unfoldable pub parse_body : Context → Buffer → Option (Parsed Buffer)
parse_body c buf =
    let (body, rest) = retrieve_as_string c.content_length buf in
    if ltb (readable_bytes buf) c.content_length
    then some (incomplete, c, buf)
    else beside rest (take_body body c)

-- What follows a line: the loop goes on behind it, or returns with the buffer as it was.
abbrev pub after_line :
    {S : Type 0}
    → (Context → S → Option (Parsed S))
    → S
    → S
    → LineResult × Context
    → Option (Parsed S)
after_line resume behind now (goes_on, c) = resume c behind
after_line resume behind now (bad_line, c) = some (bad_request, c, now)
after_line resume behind now (too_large, c) = some (request_too_large, c, now)

-- The loop of `parseRequest`, a branch for each state.
unfoldable pub parse_loop : ℕ → ℕ → Context → Buffer → Option (Parsed Buffer)
parse_loop zero time c buf = none
parse_loop (suc fuel) time c buf = elim (reads_lines c.state) [
  | true ↦ elim (find_crlf buf) [
    | none ↦ some (over_limit c (readable_bytes buf), c, buf)
    | some i ↦
        after_line (parse_loop fuel time) (retrieve_until (i + 2) buf) buf
          (process_line time (peek buf i) c)
  ]
  | false ↦ elim c.state [ expect_body ↦ parse_body c buf | _ ↦ some (complete, c, buf) ]
]

unfoldable pub parse_request : ℕ → Context → Buffer → Option (Parsed Buffer)
parse_request time c buf = parse_loop (readable_bytes buf + 1) time c buf
