-- ===== src/Http/Context/Incremental.antt =====
-- The parser is incremental: where the input is cut makes no difference.
use my_tiny_network_library.Base.{
  ℕ, zero, suc, ◌+◌, true, ◌≡◌, ◌≢◌, sym, ◌∙◌, inl, inr, arith, Bool-cases, Option-cases, Option,
  none, some, ltb, length, take, drop, ◌++◌, Bytes, find, find_bound, find-append, take-append_le,
  drop-append_le, subst,
}
use my_tiny_network_library.Buffer.{crlf}
use my_tiny_network_library.Http.Context.Steps.{no_lines}
use my_tiny_network_library.Http.Context.Limits.{parse_mono}
use my_tiny_network_library.Http.Context.Spec
use my_tiny_network_library.Http.Context.Spec.{parse, parse-expect_body, parse-got_all}
use my_tiny_network_library.Http.Context.{
  Context, ParseResult, incomplete, LineResult, goes_on, bad_line, too_large, reads_lines, Parsed,
  beside, after_line, process_line, take_body,
}

-- Reading the body never ends in `incomplete`.
take_body-ne-incomplete : (body : Bytes) (c c' : Context) → take_body body c ≢ some (incomplete, c')
unfolding take_body
take_body-ne-incomplete body c c' e = ground arith

pub beside-eq :
    (s rest : Bytes) (o : Option (ParseResult × Context)) (out : ParseResult × Context)
    → beside s o ≡ some (out.0, out.1, rest)
    → o ≡ some out
beside-eq s rest none out e = cc
beside-eq s rest (some (r, c)) out e = cc

-- A body that is not all there leaves the context and the input as they were.
pub parse_body-incomplete :
    (c c' : Context) (input rest : Bytes)
    → Spec.parse_body c input ≡ some (incomplete, c', rest)
    → (c' ≡ c) × (rest ≡ input) × (ltb (length input) c.content_length ≡ true)
unfolding Spec.parse_body
parse_body-incomplete c c' input rest e = elim (Bool-cases (ltb (length input) c.content_length)) [
  | inl short ↦ ground (arith, rw short at e)
  | inr long ↦ absurd (
      take_body-ne-incomplete (take c.content_length input) c c'
        (beside-eq (drop c.content_length input) rest _ (incomplete, c') (rw long at e)))
]

after_line_resume :
    (resume resume' : Context → Bytes → Option (Parsed Bytes)) (behind now behind' now' : Bytes)
    (outcome : LineResult × Context) (c' : Context) (rest : Bytes) (out : Parsed Bytes)
    → ((c : Context) → resume c behind ≡ some (incomplete, c', rest) → resume' c behind' ≡ some out)
    → after_line resume behind now outcome ≡ some (incomplete, c', rest)
    → after_line resume' behind' now' outcome ≡ some out
after_line_resume resume resume' behind now behind' now' (goes_on, c) c' rest out h e = h c e
after_line_resume resume resume' behind now behind' now' (bad_line, c) c' rest out h e = cc
after_line_resume resume resume' behind now behind' now' (too_large, c) c' rest out h e = cc

-- A call that asked for more, followed by one with more bytes behind what was left, comes to what one
-- call with all the bytes comes to.
pub parse_resume :
    (fuel fuel' time : ℕ) (c c' : Context) (input rest more : Bytes) (out : Parsed Bytes)
    → parse fuel time c input ≡ some (incomplete, c', rest)
    → parse fuel' time c' (rest ++ more) ≡ some out
    → parse (fuel + fuel') time c (input ++ more) ≡ some out
unfolding parse
parse_resume zero fuel' time c c' input rest more out e h = cc
parse_resume (suc fuel) fuel' time c c' input rest more out e h =
    subst (λ n. parse n time c (input ++ more) ≡ some out) count
      (elim (Bool-cases (reads_lines c.state)) [
        | inl lines ↦ elim (Option-cases (find crlf input)) [
          | inl f ↦ unchanged (ground (arith, rw (lines, f, parse) at e))
          | inr (i, f) ↦
              let inside = find_bound crlf input i f in
              rw
                (
                  lines,
                  find-append crlf input more i f,
                  parse,
                  take-append_le input more i (omega (arith, inside)),
                  drop-append_le input more (i + 2) inside,
                )
                (after_line_resume (parse fuel time) (parse (fuel + fuel') time)
                  (drop (i + 2) input) input (drop (i + 2) input ++ more) (input ++ more)
                  (process_line time (take i input) c) c' rest out
                  (λ c₁ p.
                    parse_resume fuel fuel' time c₁ c' (drop (i + 2) input) rest more out p h)
                  (rw (lines, f, parse) at e))
        ]
        | inr other ↦ elim (no_lines c.state other) [
          | inl body ↦
              let (p, q, _) =
                parse_body-incomplete c c' input rest
                  (sym (parse-expect_body fuel time c input body) ∙ e) in
              unchanged (p, q)
          | inr done ↦ cc (sym (parse-got_all fuel time c input done) ∙ e)
        ]
      ])
  where
    count : suc (fuel + fuel') ≡ suc fuel + fuel'
    count = omega arith

    unchanged :
        (c' ≡ c) × (rest ≡ input) → parse (suc (fuel + fuel')) time c (input ++ more) ≡ some out
    unchanged (p, q) =
        parse_mono fuel' (suc (fuel + fuel')) time c (input ++ more) out (omega arith) (
          subst (λ xs. parse fuel' time c (xs ++ more) ≡ some out) q
            (subst (λ d. parse fuel' time d (rest ++ more) ≡ some out) p h))
