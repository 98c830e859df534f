-- ===== src/Http/Context/Consumed.antt =====
-- What a call of `parseRequest` takes out of the buffer.
use my_tiny_network_library.Base.{
  ℕ, zero, suc, ◌+◌, ◌≤◌, ◌<◌, ◌≡◌, sym, ap, ◌∙◌, inl, inr, arith, Bool-cases, Option-cases, Option,
  none, some, ltb, length, drop, take, Bytes, find, find_bound, length-drop, true,
}
use my_tiny_network_library.Buffer.{Buffer, crlf}
use my_tiny_network_library.Buffer.Inv.{IsValid, contents}
use my_tiny_network_library.Http.Context.Steps.{no_lines}
use my_tiny_network_library.Http.Context.Spec
use my_tiny_network_library.Http.Context.Spec.{parse, parse-expect_body, parse-got_all}
use my_tiny_network_library.Http.Context.Promise.{parsed}
use my_tiny_network_library.Http.Context.{
  Context, complete, ParseResult, LineResult, goes_on, bad_line, too_large, reads_lines, Parsed,
  after_line, process_line, parse_request, take_body, beside,
}

-- No more is unread than before; and after a line has been read for a whole request, less.
abbrev pub Shrinks : Context → Bytes → Parsed Bytes → Type 0
Shrinks c input out =
    (length out.2 ≤ length input)
    × (out.0 ≡ complete → reads_lines c.state ≡ true → length out.2 < length input)

beside-rest :
    (rest : Bytes) (o : Option (ParseResult × Context)) (out : Parsed Bytes)
    → beside rest o ≡ some out
    → out.2 ≡ rest
beside-rest rest (some (result, c)) out e = ground (arith, e)
beside-rest rest none out e = cc

parse_body-shrinks :
    (c : Context) (input : Bytes) (out : Parsed Bytes)
    → Spec.parse_body c input ≡ some out
    → length out.2 ≤ length input
unfolding Spec.parse_body
parse_body-shrinks c input out e = elim (Bool-cases (ltb (length input) c.content_length)) [
  | inl short ↦ ground (arith, rw (short, Spec.parse_body) at e)
  | inr long ↦ omega (
    arith,
    length-drop c.content_length input,
    ap length (
        beside-rest (drop c.content_length input) (take_body (take c.content_length input) c) out
          (rw (long, Spec.parse_body) at e)),
  )
]

after_line-shrinks :
    (resume : Context → Bytes → Option (Parsed Bytes)) (behind now : Bytes)
    (outcome : LineResult × Context) (out : Parsed Bytes)
    → ((c : Context) → resume c behind ≡ some out → length out.2 ≤ length behind)
    → length behind < length now
    → after_line resume behind now outcome ≡ some out
    → (length out.2 ≤ length now) × (out.0 ≡ complete → length out.2 < length now)
after_line-shrinks resume behind now (goes_on, c) out h less e =
    (omega (arith, h c e), λ _. omega (arith, h c e))
after_line-shrinks resume behind now (bad_line, c) out h less e =
    (ground (arith, e), λ k. ground (arith, e))
after_line-shrinks resume behind now (too_large, c) out h less e =
    (ground (arith, e), λ k. ground (arith, e))

parse-Shrinks :
    (fuel time : ℕ) (c : Context) (input : Bytes) (out : Parsed Bytes)
    → parse fuel time c input ≡ some out
    → Shrinks c input out
unfolding parse
parse-Shrinks zero time c input out e = cc
parse-Shrinks (suc fuel) time c input out e = elim (Bool-cases (reads_lines c.state)) [
  | inl lines ↦ elim (Option-cases (find crlf input)) [
    | inl f ↦
        let now = rw (lines, f, parse) at e in (ground (arith, now), λ k _. ground (arith, now))
    | inr (i, f) ↦
        let (less, strict) =
          after_line-shrinks (parse fuel time) (drop (i + 2) input) input
            (process_line time (take i input) c) out
            (λ c₁ p. (parse-Shrinks fuel time c₁ (drop (i + 2) input) out p).0)
            (omega (arith, length-drop (i + 2) input, find_bound crlf input i f))
            (rw (lines, f, parse) at e) in
        (less, λ k _. strict k)
  ]
  | inr other ↦ elim (no_lines c.state other) [
    | inl body ↦ (
      parse_body-shrinks c input out (sym (parse-expect_body fuel time c input body) ∙ e),
      λ _ k. cc,
    )
    | inr done ↦
        let now = sym (parse-got_all fuel time c input done) ∙ e in (ground (arith, now), λ _ k. cc)
  ]
]

-- What a call of `parseRequest` leaves unread over a valid buffer.
pub parse_request-Shrinks :
    (time : ℕ) (c : Context) (buf : Buffer) (out : Parsed Buffer)
    → IsValid buf
    → parse_request time c buf ≡ some out
    → IsValid out.2 × Shrinks c (contents buf) (out.0, out.1, contents out.2)
parse_request-Shrinks time c buf out v e =
    let (v', p) = parsed time c buf out v e in (v', parse-Shrinks _ time c (contents buf) _ p)
