-- ===== src/Http/Request.antt =====
-- src/http/HttpRequest.h. A pair of pointers into the input is the text between them.
use my_tiny_network_library.Base.{
  ℕ, Bool, true, false, List, [], ◌∷◌, ◌++◌, Option, none, some, if◌then◌else◌, Bytes, codes, equal,
}
use my_tiny_network_library.Http.Chars.{lower, is_space, skip, strip_end}
use my_tiny_network_library.Http.Fields.{Fields, lookup, insert}

pub record UploadedFile : Type 0 where
  pub field_name : Bytes
  pub file_name : Bytes
  pub content_type : Bytes
  pub content : Bytes

pub data Method : Type 0 where
  invalid get post head put delete : Method

pub data Version : Type 0 where
  unknown http10 http11 : Version

-- Times are microseconds.
pub record Request : Type 0 where
  pub method : Method
  pub version : Version
  pub path : Bytes
  pub query : Bytes
  pub receive_time : ℕ
  pub headers : Fields
  pub body_form : Fields
  pub files : List UploadedFile
  pub body : Bytes

unfoldable pub init : Request
init = record {
  method = invalid;
  version = unknown;
  path = [];
  query = [];
  receive_time = 0;
  headers = [];
  body_form = [];
  files = [];
  body = [];
}

unfoldable pub method_of : Bytes → Method
method_of m =
    if equal m (codes "GET")
    then get
    else if equal m (codes "POST")
    then post
    else if equal m (codes "HEAD")
    then head
    else if equal m (codes "PUT")
    then put
    else if equal m (codes "DELETE")
    then delete
    else invalid

abbrev pub is_known : Method → Bool
is_known invalid = false
is_known _ = true

unfoldable pub set_method : Bytes → Request → Bool × Request
set_method m r = (is_known (method_of m), record r { method = method_of m })

unfoldable pub method_string : Method → Bytes
method_string get = codes "GET"
method_string post = codes "POST"
method_string head = codes "HEAD"
method_string put = codes "PUT"
method_string delete = codes "DELETE"
method_string invalid = codes "UNKNOWN"

-- The texts before and behind the colon of a header line.
unfoldable pub add_header : Bytes → Bytes → Request → Request
add_header field value r = record r {
  headers = insert (lower field) (strip_end is_space (skip is_space value)) r.headers;
}

unfoldable pub add_body_form : Bytes → Bytes → Request → Request
add_body_form field value r = record r { body_form = insert field value r.body_form }

abbrev or_empty : Option Bytes → Bytes
or_empty none = []
or_empty (some v) = v

unfoldable pub get_header : Bytes → Request → Bytes
get_header field r = or_empty (lookup (lower field) r.headers)

unfoldable pub get_body_form : Bytes → Request → Bytes
get_body_form field r = or_empty (lookup field r.body_form)

unfoldable pub add_file : UploadedFile → Request → Request
add_file file r = record r { files = r.files ++ file ∷ [] }

-- `swap` puts the fields of each request into the other.
unfoldable pub swap : Request → Request → Request × Request
swap r s = (s, r)
