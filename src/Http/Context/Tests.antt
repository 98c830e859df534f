-- ===== src/Http/Context/Tests.antt =====
-- Runs of the parser, and its theorems at concrete requests.
use mathlib.Core.Option
use my_tiny_network_library.Base.{
  ℕ, ◌+◌, ◌≡◌, refl, arith, [], ◌∷◌, ◌++◌, Bytes, Option, some, codes, length, equal, starts_with,
  find, break_at, add_size, sub_size,
}
use my_tiny_network_library.Buffer.{Buffer, append, find_crlf, retrieve_until, retrieve_as_string}
use my_tiny_network_library.Buffer.Inv.{IsValid, contents}
use my_tiny_network_library.Http.Chars.{
  lower, trim, find_from, c_string, strtoull, convert, signed_digits, scan_digits, skip, strip_end,
}
use my_tiny_network_library.Http.Fields.{lookup, insert}
use my_tiny_network_library.Http.Request.{
  Request, UploadedFile, get, http10, http11, set_method, method_of, add_header, get_header,
  add_body_form, add_file,
}
use my_tiny_network_library.Http.Request
use my_tiny_network_library.Http.Multipart.{
  parameter_value, note_header, part_headers, store_part, read_part, multipart_round,
  multipart_loop, parse_multipart_body,
}
use my_tiny_network_library.Http.Context.{
  Context, init, expect_headers, got_all, incomplete, complete, Parsed, parse_loop, parse_request,
  process_line, first_line, header_line, process_request_line, process_target, process_version,
  prepare_body, take_body, parse_body,
}
use my_tiny_network_library.Http.Context.Chunks.{seen, parse_request_total, parse_request-append}
use my_tiny_network_library.Http.Context.Waiting.{InLimits, Waits}
use my_tiny_network_library.Http.Context.Body.{Complete}
use my_tiny_network_library.Http.Context.Promise.{parse_request-Waits, parse_request-Complete}

-- `parse_request` with all that it calls open
runs : ℕ → Context → Buffer → Option (Parsed Buffer)
unfolding parse_request parse_loop process_line first_line header_line process_request_line
    process_target process_version prepare_body take_body parse_body parameter_value note_header
    part_headers store_part read_part multipart_round multipart_loop parse_multipart_body set_method
    method_of add_header get_header add_body_form add_file lookup insert lower trim find_from
    c_string strtoull convert signed_digits scan_digits skip strip_end equal starts_with find
    break_at add_size sub_size find_crlf retrieve_until retrieve_as_string init Request.init append
runs = parse_request

-- a buffer with this text unread
abbrev holding : Bytes → Buffer
holding text = record {
  fd = 0;
  buffer = 0 ∷ 0 ∷ 0 ∷ 0 ∷ 0 ∷ 0 ∷ 0 ∷ 0 ∷ text;
  reader_index = 8;
  writer_index = 8 + length text;
}

abbrev eol : Bytes
eol = 13 ∷ 10 ∷ []

abbrev request_text : Bytes
request_text =
    codes "GET /x?a=1 HTTP/1.1" ++ eol ++ codes "Content-Length: 2" ++ eol ++ eol ++ codes "ok"

-- a whole request is read in one call
whole : Option.map (λ p. p.0) (parse_request 7 init (holding request_text)) ≡ some complete
unfolding runs
whole = refl

-- a body length that is announced as a negative number is read as the 64-bit word of that number
negative : (strtoull (codes "-18446744073709551606")).value ≡ 10
unfolding runs
negative = refl

abbrev first_piece : Bytes
first_piece = codes "GET /x HTTP/1.1" ++ eol ++ codes "Ho"

abbrev in_headers : Context
in_headers = record {
  state = expect_headers;
  request = record {
    method = get;
    version = http11;
    path = codes "/x";
    query = [];
    receive_time = 7;
    headers = [];
    body_form = [];
    files = [];
    body = [];
  };
  header_bytes = 17;
  content_length = 0;
}

abbrev after_first : Buffer
after_first = record (holding first_piece) { reader_index = 25 }

piece_asks : parse_request 7 init (holding first_piece) ≡ some (incomplete, in_headers, after_first)
unfolding runs
piece_asks = refl

holding-IsValid : IsValid (holding first_piece)
holding-IsValid = omega arith

parse_request-append_example :
    Option.map seen (parse_request 9 in_headers (append (codes "st") after_first))
    ≡ Option.map seen (parse_request 7 init (append (codes "st") (holding first_piece)))
parse_request-append_example =
    parse_request-append 7 9 init in_headers (holding first_piece) after_first (codes "st")
      holding-IsValid (omega arith) (omega arith) piece_asks

parse_request_total_example :
    (out : Parsed Buffer) × (parse_request 7 in_headers (holding first_piece) ≡ some out)
parse_request_total_example = parse_request_total 7 in_headers (holding first_piece) holding-IsValid

init-InLimits : InLimits init
unfolding init
init-InLimits = record { unfinished = λ e. cc; headers = omega arith; body = λ e. cc }

parse_request-Waits_example : IsValid after_first × Waits in_headers (contents after_first)
parse_request-Waits_example =
    parse_request-Waits 7 init in_headers (holding first_piece) after_first holding-IsValid
      init-InLimits piece_asks

abbrev small_text : Bytes
small_text = codes "GET / HTTP/1.0" ++ eol ++ codes "Content-Length: 1" ++ eol ++ eol ++ codes "k"

abbrev read_all : Context
read_all = record {
  state = got_all;
  request = record {
    method = get;
    version = http10;
    path = codes "/";
    query = [];
    receive_time = 7;
    headers = (codes "content-length", codes "1") ∷ [];
    body_form = [];
    files = [];
    body = codes "k";
  };
  header_bytes = 37;
  content_length = 1;
}

small_complete :
    parse_request 7 init (holding small_text)
    ≡ some (complete, read_all, record (holding small_text) { reader_index = 8; writer_index = 8 })
unfolding runs
small_complete = refl

parse_request-Complete_example :
    IsValid (record (holding small_text) { reader_index = 8; writer_index = 8 }) × Complete read_all
parse_request-Complete_example =
    parse_request-Complete 7 init read_all (holding small_text) _ (omega arith) init-InLimits
      small_complete
