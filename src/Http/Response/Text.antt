-- ===== src/Http/Response/Text.antt =====
-- What a response looks like on the wire.
use my_tiny_network_library.Base.{
  ◌≡◌, ◌≤◌, ◌<◌, ◌+◌, refl, sym, ap, ap₂, ◌∙◌, subst, arith, List, [], ◌∷◌, ◌++◌, append_assoc,
  append-nil, Bytes, codes, length, length-append, max_size, Bool, true, false, if◌then◌else◌,
  take-all, digits, decimal, length-digits,
}
use my_tiny_network_library.Buffer.{Buffer, append, crlf}
use my_tiny_network_library.Buffer.Inv.{IsValid, contents}
use my_tiny_network_library.Buffer.Contents.{append_lem, append-writer_index}
use my_tiny_network_library.Http.Fields.{Fields}
use my_tiny_network_library.Http.Response.{
  Response, StatusCode, unknown, ok, moved_permanently, bad_request, not_found, method_not_allowed,
  payload_too_large, unsupported_media_type, unprocessable_entity, internal_server_error,
  not_implemented, service_unavailable, status_number, printed, append_headers, append_to_buffer,
  connection_line, status_text, length_text,
}

-- one text behind the other
abbrev pub joined : List Bytes → Bytes
joined [] = []
joined (text ∷ texts) = text ++ joined texts

abbrev append_each : List Bytes → Buffer → Buffer
append_each [] b = b
append_each (text ∷ texts) b = append_each texts (append text b)

append_each-contents :
    (texts : List Bytes) (b : Buffer)
    → IsValid b
    → b.writer_index + length (joined texts) ≤ max_size
    → IsValid (append_each texts b) × (contents (append_each texts b) ≡ contents b ++ joined texts)
append_each-contents [] b v fits = (v, sym (append-nil (contents b)))
append_each-contents (text ∷ texts) b v fits =
    let total : length (joined (text ∷ texts)) ≡ length text + length (joined texts) =
      length-append text (joined texts) in
    let (v', same) = append_lem text b v (omega (arith, total)) in
    let (v'', same') =
      append_each-contents texts (append text b) v'
        (omega (arith, total, append-writer_index text b v (omega (arith, total)))) in
    (v'', same' ∙ ap (λ l. l ++ joined texts) same ∙ append_assoc (contents b) text (joined texts))

abbrev pub header_texts : Fields → List Bytes
header_texts [] = []
header_texts ((key, value) ∷ headers) = key ∷ codes ": " ∷ value ∷ crlf ∷ header_texts headers

-- the status codes as they are written
abbrev pub status_digits : StatusCode → Bytes
status_digits unknown = codes "0"
status_digits ok = codes "200"
status_digits moved_permanently = codes "301"
status_digits bad_request = codes "400"
status_digits not_found = codes "404"
status_digits method_not_allowed = codes "405"
status_digits payload_too_large = codes "413"
status_digits unsupported_media_type = codes "415"
status_digits unprocessable_entity = codes "422"
status_digits internal_server_error = codes "500"
status_digits not_implemented = codes "501"
status_digits service_unavailable = codes "503"

abbrev pub connection_header : Bool → Bytes
connection_header close =
    if close then codes "Connection: close\r\n" else codes "Connection: Keep-Alive\r\n"

-- The texts of a response: the status line, the line on the connection, the length of the body, the
-- headers, the empty line and the body.
abbrev pub response_texts : Response → List Bytes
response_texts r =
    (codes "HTTP/1.1 " ++ (status_digits r.status_code ++ codes " "))
    ∷ r.status_message
    ∷ codes "\r\n"
    ∷ connection_header r.close_connection
    ∷ (codes "Content-Length: " ++ (decimal (length r.body) ++ codes "\r\n"))
    ∷ (header_texts r.headers ++ (codes "\r\n" ∷ r.body ∷ []))

status_printed :
    (status : StatusCode)
    → printed (codes "HTTP/1.1 " ++ decimal (status_number status) ++ codes " ")
      ≡ codes "HTTP/1.1 " ++ (status_digits status ++ codes " ")
unfolding status_number decimal digits
status_printed unknown = refl
status_printed ok = refl
status_printed moved_permanently = refl
status_printed bad_request = refl
status_printed not_found = refl
status_printed method_not_allowed = refl
status_printed payload_too_large = refl
status_printed unsupported_media_type = refl
status_printed unprocessable_entity = refl
status_printed internal_server_error = refl
status_printed not_implemented = refl
status_printed service_unavailable = refl

status_line :
    (r : Response) → status_text r ≡ codes "HTTP/1.1 " ++ (status_digits r.status_code ++ codes " ")
status_line r = status_printed r.status_code

connection_line_lem : (close : Bool) → connection_line close ≡ connection_header close
connection_line_lem true = refl
connection_line_lem false = refl

-- thirteen digits fit into `buf` behind the name of the header
length_line :
    (r : Response)
    → length r.body < 10000000000000
    → length_text r ≡ codes "Content-Length: " ++ (decimal (length r.body) ++ codes "\r\n")
unfolding decimal
length_line r h =
    let n = length r.body in
    let short = length-digits 12 (n + 1) n (omega (arith, h)) in
    let whole = length-append (digits (n + 1) n) (codes "\r\n") in
    take-all 31 _ (omega (arith, short, whole))

append_headers-append_each :
    (headers : Fields) (rest : List Bytes) (b : Buffer)
    → append_each rest (append_headers headers b) ≡ append_each (header_texts headers ++ rest) b
unfolding append_headers
append_headers-append_each [] rest b = refl
append_headers-append_each ((key, value) ∷ headers) rest b =
    append_headers-append_each headers rest _

-- the texts as the code puts them together
abbrev own_texts : Response → List Bytes
own_texts r =
    status_text r
    ∷ r.status_message
    ∷ crlf
    ∷ connection_line r.close_connection
    ∷ length_text r
    ∷ (header_texts r.headers ++ (crlf ∷ r.body ∷ []))

own_texts_lem : (r : Response) → length r.body < 10000000000000 → own_texts r ≡ response_texts r
own_texts_lem r h =
    ap
      (λ t.
        t
        ∷ r.status_message
        ∷ crlf
        ∷ connection_line r.close_connection
        ∷ length_text r
        ∷ (header_texts r.headers ++ (crlf ∷ r.body ∷ [])))
      (status_line r)
    ∙ ap₂
        (λ t n.
          (codes "HTTP/1.1 " ++ (status_digits r.status_code ++ codes " "))
          ∷ r.status_message
          ∷ crlf
          ∷ t
          ∷ n
          ∷ (header_texts r.headers ++ (crlf ∷ r.body ∷ [])))
        (connection_line_lem r.close_connection) (length_line r h)

-- `appendToBuffer` keeps the buffer valid and adds exactly the texts of the response behind what it
-- holds, for a response that fits into a vector and whose body has fewer than 10^13 bytes: the status
-- code and the phrase, the line that closes or keeps the connection, the length of the body in
-- decimal, the headers, an empty line and the body.
pub append_to_buffer_lem :
    (r : Response) (b : Buffer)
    → IsValid b
    → length r.body < 10000000000000
    → b.writer_index + length (joined (response_texts r)) ≤ max_size
    → IsValid (append_to_buffer r b)
      × (contents (append_to_buffer r b) ≡ contents b ++ joined (response_texts r))
unfolding append_to_buffer
append_to_buffer_lem r b v small fits =
    subst
      (λ texts.
        IsValid (append_to_buffer r b)
        × (contents (append_to_buffer r b) ≡ contents b ++ joined texts))
      (own_texts_lem r small)
      (subst (λ c. IsValid c × (contents c ≡ contents b ++ joined (own_texts r)))
        (sym (append_headers-append_each r.headers (crlf ∷ r.body ∷ []) _))
        (append_each-contents (own_texts r) b v (
          subst (λ texts. b.writer_index + length (joined texts) ≤ max_size)
            (sym (own_texts_lem r small)) fits)))
