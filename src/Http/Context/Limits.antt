-- ===== src/Http/Context/Limits.antt =====
-- What bounds the parser: it ends on every input, and it never waits for, nor accepts, more than the
-- two limits of the class allow.
use my_tiny_network_library.Base.{
  ℕ, zero, suc, ◌+◌, ◌≤◌, ◌<◌, Bool, true, false, ◌≡◌, refl, ◌∙◌, inl, inr, arith, Bool-cases,
  Option-cases, Option, some, ltb, length, take, drop, Bytes, find, find_bound, length-drop,
}
use my_tiny_network_library.Buffer.{crlf}
use my_tiny_network_library.Http.Request.{Request}
use my_tiny_network_library.Http.Context.Steps.{no_lines}
use my_tiny_network_library.Http.Multipart.Rounds.{parse_multipart_body_total}
use my_tiny_network_library.Http.Multipart.{parse_multipart_body}
use my_tiny_network_library.Http.Context.Spec
use my_tiny_network_library.Http.Context.Spec.{parse, parse-expect_body, parse-got_all}
use my_tiny_network_library.Http.Context.{
  Context, got_all, ParseResult, incomplete, complete, bad_request, request_too_large, over_limit,
  LineResult, goes_on, bad_line, too_large, reads_lines, Parsed, after_line, process_line,
  take_body,
}

take_body_total :
    (body : Bytes) (c : Context) → (out : ParseResult × Context) × (take_body body c ≡ some out)
unfolding take_body
take_body_total body c =
    let (out, e) = parse_multipart_body_total (record c.request { body = body }) in go out e
  where
    go :
        (out : Bool × Request)
        → parse_multipart_body (record c.request { body = body }) ≡ some out
        → (out : ParseResult × Context) × (take_body body c ≡ some out)
    go (true, r) e = ((complete, record c { request = r; state = got_all }), rw (e, take_body))
    go (false, r) e = ((bad_request, record c { request = r }), rw (e, take_body))

parse_body_total :
    (c : Context) (input : Bytes) → (out : Parsed Bytes) × (Spec.parse_body c input ≡ some out)
unfolding Spec.parse_body
parse_body_total c input = elim (Bool-cases (ltb (length input) c.content_length)) [
  | inl short ↦ ((incomplete, c, input), rw short)
  | inr long ↦
      let (out, e) = take_body_total (take c.content_length input) c in
      ((out.0, out.1, drop c.content_length input), rw (long, e))
]

after_line_total :
    (resume : Context → Bytes → Option (Parsed Bytes)) (behind now : Bytes)
    (outcome : LineResult × Context)
    → ((c : Context) → (out : Parsed Bytes) × (resume c behind ≡ some out))
    → (out : Parsed Bytes) × (after_line resume behind now outcome ≡ some out)
after_line_total resume behind now (goes_on, c) h = h c
after_line_total resume behind now (bad_line, c) h = ((bad_request, c, now), refl)
after_line_total resume behind now (too_large, c) h = ((request_too_large, c, now), refl)

-- The loop ends on every input, with a round for each byte and one more.
pub parse_total :
    (fuel time : ℕ) (c : Context) (input : Bytes)
    → length input < fuel
    → (out : Parsed Bytes) × (parse fuel time c input ≡ some out)
unfolding parse
parse_total zero time c input h = absurd (omega arith)
parse_total (suc fuel) time c input h = elim (Bool-cases (reads_lines c.state)) [
  | inl lines ↦ elim (Option-cases (find crlf input)) [
    | inl e ↦ ((over_limit c (length input), c, input), rw (lines, e, parse))
    | inr (i, e) ↦
        let (out, p) =
          after_line_total (parse fuel time) (drop (i + 2) input) input
            (process_line time (take i input) c)
            (λ c'.
              parse_total fuel time c' (drop (i + 2) input)
                (omega (arith, length-drop (i + 2) input, find_bound crlf input i e))) in
        (out, rw (lines, e, parse) p)
  ]
  | inr other ↦ elim (no_lines c.state other) [
    | inl body ↦
        let (out, p) = parse_body_total c input in
        (out, parse-expect_body fuel time c input body ∙ p)
    | inr done ↦ ((complete, c, input), parse-got_all fuel time c input done)
  ]
]

after_line_mono :
    (resume resume' : Context → Bytes → Option (Parsed Bytes)) (behind now : Bytes)
    (outcome : LineResult × Context) (out : Parsed Bytes)
    → ((c : Context) → resume c behind ≡ some out → resume' c behind ≡ some out)
    → after_line resume behind now outcome ≡ some out
    → after_line resume' behind now outcome ≡ some out
after_line_mono resume resume' behind now (goes_on, c) out h e = h c e
after_line_mono resume resume' behind now (bad_line, c) out h e = e
after_line_mono resume resume' behind now (too_large, c) out h e = e

-- More fuel changes nothing.
pub parse_mono :
    (fuel more time : ℕ) (c : Context) (input : Bytes) (out : Parsed Bytes)
    → fuel ≤ more
    → parse fuel time c input ≡ some out
    → parse more time c input ≡ some out
unfolding parse
parse_mono zero more time c input out h e = cc
parse_mono (suc fuel) zero time c input out h e = absurd (omega arith)
parse_mono (suc fuel) (suc more) time c input out h e = elim (Bool-cases (reads_lines c.state)) [
  | inl lines ↦ elim (Option-cases (find crlf input)) [
    | inl f ↦ rw (lines, f, parse) (rw (lines, f, parse) at e)
    | inr (i, f) ↦
        rw (lines, f, parse)
          (after_line_mono (parse fuel time) (parse more time) (drop (i + 2) input) input
            (process_line time (take i input) c) out
            (λ c'. parse_mono fuel more time c' (drop (i + 2) input) out (omega arith))
            (rw (lines, f, parse) at e))
  ]
  | inr other ↦ rw (other, parse) (rw (other, parse) at e)
]
