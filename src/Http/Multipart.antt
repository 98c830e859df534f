-- ===== src/Http/Multipart.antt =====
-- HttpContext.cc, `parseMultipartBody`: the parts of a `multipart/form-data` body. A position is an
-- index into the body; the loops take fuel, and `none` says that it ran out.
pub mod Rounds
pub mod Keeps
use my_tiny_network_library.Base.{
  ℕ, zero, suc, ◌+◌, ◌-◌, Bool, true, false, not, [], ◌∷◌, ◌++◌, Option, none, some, if◌then◌else◌,
  ltb, length, drop, slice, Bytes, codes, equal, is_empty, break_at,
}
use my_tiny_network_library.Buffer.{crlf}
use my_tiny_network_library.Http.Chars.{lower, trim, find_from}
use my_tiny_network_library.Http.Request.{
  Request, UploadedFile, get_header, add_body_form, add_file,
}

-- `name=value` or `name="value"` in a header's value
unfoldable pub parameter_value : Bytes → Bytes → Bytes
parameter_value value name =
    let key = name ++ b'=' ∷ [] in
    elim (find_from key 0 value) [
      | none ↦ []
      | some start ↦
          let pos = start + length key in
          if equal (slice pos 1 value) (b'"' ∷ [])
          then elim (find_from (b'"' ∷ []) (pos + 1) value) [
            | none ↦ []
            | some end ↦ slice (pos + 1) (end - pos - 1) value
          ]
          else elim (find_from (b';' ∷ []) pos value) [
            | none ↦ trim (drop pos value)
            | some end ↦ trim (slice pos (end - pos) value)
          ]
    ]

-- `lineEnd`, cut off at the end of the part's headers
abbrev pub line_end_of : ℕ → Option ℕ → ℕ
line_end_of header_end none = header_end
line_end_of header_end (some i) = if ltb header_end i then header_end else i

-- One header of a part: the disposition and the content type seen so far are updated.
unfoldable pub note_header : Bytes → Bytes → Bytes × Bytes → Bytes × Bytes
note_header key value (disposition, content_type) =
    if equal (lower key) (codes "content-disposition")
    then (trim value, content_type)
    else if equal (lower key) (codes "content-type")
    then (disposition, trim value)
    else (disposition, content_type)

-- The header lines of one part: its disposition and its content type, or `some none` for a line
-- without a colon.
unfoldable pub part_headers : ℕ → Bytes → ℕ → ℕ → Bytes × Bytes → Option (Option (Bytes × Bytes))
part_headers zero body line_start header_end found = none
part_headers (suc fuel) body line_start header_end found =
    let line_end = line_end_of header_end (find_from crlf line_start body) in
    let (key, after) = break_at b':' (slice line_start (line_end - line_start) body) in
    let rest : Option (Option (Bytes × Bytes)) = elim after [
      | none ↦ some none
      | some value ↦ part_headers fuel body (line_end + 2) header_end (note_header key value found)
    ] in
    if ltb line_start header_end then rest else some (some found)

abbrev pub is_some : Option ℕ → Bool
is_some none = false
is_some (some _) = true

-- A part becomes a form field, or a file if it has a file name; `none` refuses it.
unfoldable pub store_part : Bytes → Bytes → Bytes → Request → Option Request
store_part disposition content_type content r =
    let field_name = parameter_value disposition (codes "name") in
    let file_name = parameter_value disposition (codes "filename") in
    if not (is_some (find_from (codes "form-data") 0 disposition))
    then none
    else if is_empty field_name
    then none
    else if is_empty file_name
    then some (add_body_form field_name content r)
    else some (
        add_file
          (record {
            field_name = field_name;
            file_name = file_name;
            content_type = content_type;
            content = content;
          })
          r)

-- What one round of the loop over the parts comes to: it returns, or goes on at a new cursor.
pub data Round : Type 0 where
  returns : Bool → Request → Round
  continues : ℕ → Request → Round

-- The part from `part_start` on, whose headers end at `header_end` and whose content at `next_marker`.
unfoldable pub read_part : Bytes → ℕ → ℕ → ℕ → Request → Option Round
read_part body part_start header_end next_marker r =
    elim (part_headers (suc (header_end - part_start)) body part_start header_end ([], [])) [
      | none ↦ none
      | some none ↦ some (returns false r)
      | some (some (disposition, content_type)) ↦
          let content = slice (header_end + 4) (next_marker - (header_end + 4)) body in
          some (elim (store_part disposition content_type content r) [
            | none ↦ returns false r
            | some r' ↦ continues (next_marker + 2) r'
          ])
    ]

unfoldable pub multipart_round : Bytes → Bytes → ℕ → Request → Option Round
multipart_round boundary body cursor r = elim (find_from boundary cursor body) [
  | none ↦ some (returns false r)
  | some marker ↦
      let after = marker + length boundary in
      let part_start = after + 2 in
      if equal (slice after 2 body) (codes "--")
      then some (returns true r)
      else if not (equal (slice after 2 body) crlf)
      then some (returns false r)
      else elim (find_from (crlf ++ crlf) part_start body) [
        | none ↦ some (returns false r)
        | some header_end ↦ elim (find_from (crlf ++ boundary) (header_end + 4) body) [
          | none ↦ some (returns false r)
          | some next_marker ↦ read_part body part_start header_end next_marker r
        ]
      ]
]

unfoldable pub multipart_loop : ℕ → Bytes → Bytes → ℕ → Request → Option (Bool × Request)
multipart_loop zero boundary body cursor r = none
multipart_loop (suc fuel) boundary body cursor r = elim (multipart_round boundary body cursor r) [
  | none ↦ none
  | some (returns fine r') ↦ some (fine, r')
  | some (continues cursor' r') ↦ multipart_loop fuel boundary body cursor' r'
]

-- Whether the body is acceptable, and the request with the parts that were read.
unfoldable pub parse_multipart_body : Request → Option (Bool × Request)
parse_multipart_body r =
    let content_type = get_header (codes "Content-Type") r in
    let boundary = parameter_value content_type (codes "boundary") in
    if not (is_some (find_from (codes "multipart/form-data") 0 content_type))
    then some (true, r)
    else if is_empty boundary
    then some (false, r)
    else multipart_loop (length r.body + 1) (codes "--" ++ boundary) r.body 0 r
