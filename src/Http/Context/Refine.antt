-- ===== src/Http/Context/Refine.antt =====
-- The parser over the buffer does what the one over the unread bytes does.
use my_tiny_network_library.Base.{
  ℕ, zero, suc, ◌+◌, ◌-◌, ◌≤◌, ◌≡◌, refl, sym, ap, subst, ◌∙◌, inl, inr, arith, Bool-cases,
  Option-cases, Option, none, some, ltb, length, take, drop, Bytes, find_bound,
}
use my_tiny_network_library.Buffer.{Buffer, crlf, find_crlf, readable_bytes, retrieve_until}
use my_tiny_network_library.Buffer.Inv.{
  IsValid, contents, length-contents, length-contents-readable,
}
use my_tiny_network_library.Buffer.Contents.{
  find_crlf-contents, peek-contents, contents-retrieve_until, retrieve_as_string_lem,
}
use my_tiny_network_library.Http.Context.{
  Context, ParseResult, LineResult, goes_on, bad_line, too_large, reads_lines, Parsed, beside,
  after_line, process_line, take_body, parse_body, parse_loop, parse_request,
}
use my_tiny_network_library.Http.Context.Steps.{no_lines}
use my_tiny_network_library.Http.Context.Spec
use my_tiny_network_library.Http.Context.Spec.{parse}

-- The same result and context, and a valid buffer that holds the bytes left over.
abbrev pub Refines : Option (Parsed Buffer) → Option (Parsed Bytes) → Type 0
Refines none o = o ≡ none
Refines (some (result, c, buf)) o = IsValid buf × (o ≡ some (result, c, contents buf))

beside-Refines :
    (buf : Buffer) (input : Bytes) (o : Option (ParseResult × Context))
    → IsValid buf
    → contents buf ≡ input
    → Refines (beside buf o) (beside input o)
beside-Refines buf input none v e = refl
beside-Refines buf input (some (r, c)) v e = (v, ap (λ xs. some (r, c, xs)) (sym e))

parse_body-Refines :
    (c : Context) (buf : Buffer)
    → IsValid buf
    → Refines (parse_body c buf) (Spec.parse_body c (contents buf))
unfolding parse_body Spec.parse_body
parse_body-Refines c buf v =
    let (text, rest, valid) = retrieve_as_string_lem c.content_length buf v in
    elim (Bool-cases (ltb (readable_bytes buf) c.content_length)) [
      | inl e ↦ rw (length-contents-readable buf v, e) (v, refl)
      | inr e ↦
          rw (length-contents-readable buf v, e, text)
            (beside-Refines _ _ (take_body (take c.content_length (contents buf)) c) valid rest)
    ]

after_line-Refines :
    (resume : Context → Buffer → Option (Parsed Buffer))
    (resume' : Context → Bytes → Option (Parsed Bytes)) {buf : Buffer} (behind : Buffer)
    (rest : Bytes) (outcome : LineResult × Context)
    → IsValid buf
    → ((c : Context) → Refines (resume c behind) (resume' c rest))
    → Refines
        (after_line resume behind buf outcome)
        (after_line resume' rest (contents buf) outcome)
after_line-Refines resume resume' behind rest (goes_on, c) v h = h c
after_line-Refines resume resume' behind rest (bad_line, c) v h = (v, refl)
after_line-Refines resume resume' behind rest (too_large, c) v h = (v, refl)

found_inside :
    (i : ℕ) (buf : Buffer)
    → IsValid buf
    → find_crlf buf ≡ some i
    → i ≤ buf.writer_index - buf.reader_index
found_inside i buf v e = omega (
  arith,
  find_bound crlf (contents buf) i (sym (find_crlf-contents buf v) ∙ e),
  length-contents buf v,
)

parse_loop-Refines :
    (fuel time : ℕ) (c : Context) (buf : Buffer)
    → IsValid buf
    → Refines (parse_loop fuel time c buf) (parse fuel time c (contents buf))
unfolding parse_loop parse
parse_loop-Refines zero time c buf v = refl
parse_loop-Refines (suc fuel) time c buf v = elim (Bool-cases (reads_lines c.state)) [
  | inl lines ↦ elim (Option-cases (find_crlf buf)) [
    | inl e ↦
        rw
          (
            lines,
            e,
            ← find_crlf-contents buf v,
            e,
            length-contents-readable buf v,
            parse_loop,
            parse,
          )
          (v, refl)
    | inr (i, e) ↦
        let (valid, rest) = contents-retrieve_until (i + 2) buf v in
        rw
          (
            lines,
            e,
            ← find_crlf-contents buf v,
            e,
            peek-contents i buf (found_inside i buf v e),
            parse_loop,
            parse,
          )
          (after_line-Refines (parse_loop fuel time) (parse fuel time) (retrieve_until (i + 2) buf)
            (drop (i + 2) (contents buf)) (process_line time (take i (contents buf)) c) v
            (λ c'.
              subst
                (λ xs.
                  Refines (parse_loop fuel time c' (retrieve_until (i + 2) buf))
                    (parse fuel time c' xs))
                rest (parse_loop-Refines fuel time c' (retrieve_until (i + 2) buf) valid)))
  ]
  | inr other ↦ elim (no_lines c.state other) [
    | inl body ↦ rw (other, body, parse_loop, parse) (parse_body-Refines c buf v)
    | inr done ↦ rw (other, done, parse_loop, parse) (v, refl)
  ]
]

-- `parseRequest` over a valid buffer returns what the parser over its readable bytes returns, keeps
-- the buffer valid, and leaves in it the bytes that the other leaves.
pub parse_request-Refines :
    (time : ℕ) (c : Context) (buf : Buffer)
    → IsValid buf
    → Refines (parse_request time c buf) (parse (length (contents buf) + 1) time c (contents buf))
unfolding parse_request
parse_request-Refines time c buf v =
    rw (length-contents-readable buf v) (parse_loop-Refines (readable_bytes buf + 1) time c buf v)
