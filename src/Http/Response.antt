-- ===== src/Http/Response.antt =====
-- src/http/HttpResponse.h and HttpResponse.cc. The C++ map of headers leaves their order open; here it
-- is the order in which they were first set.
pub mod Text
use my_tiny_network_library.Base.{
  ℕ, Bool, true, false, List, [], ◌∷◌, ◌++◌, Option, none, some, if◌then◌else◌, Bytes, codes, take,
  decimal, length,
}
use my_tiny_network_library.Buffer.{Buffer, append, crlf}
use my_tiny_network_library.Http.Fields.{Fields, lookup, insert}

pub data StatusCode : Type 0 where
  unknown ok moved_permanently bad_request not_found method_not_allowed payload_too_large
        unsupported_media_type unprocessable_entity internal_server_error not_implemented
        service_unavailable :
      StatusCode

unfoldable pub status_number : StatusCode → ℕ
status_number unknown = 0
status_number ok = 200
status_number moved_permanently = 301
status_number bad_request = 400
status_number not_found = 404
status_number method_not_allowed = 405
status_number payload_too_large = 413
status_number unsupported_media_type = 415
status_number unprocessable_entity = 422
status_number internal_server_error = 500
status_number not_implemented = 501
status_number service_unavailable = 503

pub record Response : Type 0 where
  pub headers : Fields
  pub other_message : Fields
  pub status_code : StatusCode
  pub status_message : Bytes
  pub close_connection : Bool
  pub body : Bytes

unfoldable pub init : Bool → Response
init close = record {
  headers = [];
  other_message = [];
  status_code = unknown;
  status_message = [];
  close_connection = close;
  body = [];
}

unfoldable pub add_header : Bytes → Bytes → Response → Response
add_header key value r = record r { headers = insert key value r.headers }

unfoldable pub set_content_type : Bytes → Response → Response
set_content_type content_type r = add_header (codes "Content-Type") content_type r

unfoldable pub add_other_message : Bytes → Bytes → Response → Response
add_other_message key value r = record r { other_message = insert key value r.other_message }

abbrev or_empty : Option Bytes → Bytes
or_empty none = []
or_empty (some text) = text

unfoldable pub get_header : Bytes → Response → Bytes
get_header key r = or_empty (lookup key r.headers)

-- `snprintf` into `buf`, which holds 31 characters
abbrev pub printed : Bytes → Bytes
printed text = take 31 text

unfoldable pub append_headers : Fields → Buffer → Buffer
append_headers [] output = output
append_headers ((key, value) ∷ headers) output =
    append_headers headers (append crlf (append value (append (codes ": ") (append key output))))

abbrev pub connection_line : Bool → Bytes
connection_line true = codes "Connection: close" ++ crlf
connection_line false = codes "Connection: Keep-Alive" ++ crlf

abbrev pub status_text : Response → Bytes
status_text r = printed (codes "HTTP/1.1 " ++ decimal (status_number r.status_code) ++ codes " ")

abbrev pub length_text : Response → Bytes
length_text r = printed (codes "Content-Length: " ++ decimal (length r.body) ++ crlf)

unfoldable pub append_to_buffer : Response → Buffer → Buffer
append_to_buffer r output =
    let line = append crlf (append r.status_message (append (status_text r) output)) in
    let lengths = append (length_text r) (append (connection_line r.close_connection) line) in
    append r.body (append crlf (append_headers r.headers lengths))
