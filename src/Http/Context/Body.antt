-- ===== src/Http/Context/Body.antt =====
-- The body of a request that is reported complete.
use my_tiny_network_library.Base.{
  ℕ, zero, suc, ◌+◌, ◌≤◌, Bool, true, false, ◌≡◌, ◌≢◌, refl, sym, ap, ◌∙◌, subst, inl, inr, arith,
  Bool-cases, Option-cases, Option, none, some, ltb, ltb→le, length, take, drop, Bytes, find,
  length-take,
}
use my_tiny_network_library.Buffer.{crlf}
use my_tiny_network_library.Http.Request.{Request}
use my_tiny_network_library.Http.Context.Steps.{no_lines}
use my_tiny_network_library.Http.Multipart.{parse_multipart_body}
use my_tiny_network_library.Http.Multipart.Keeps.{parse_multipart_body-body}
use my_tiny_network_library.Http.Context.Incremental.{beside-eq}
use my_tiny_network_library.Http.Context.Spec
use my_tiny_network_library.Http.Context.Spec.{parse, parse-expect_body, parse-got_all}
use my_tiny_network_library.Http.Context.Waiting.{InLimits, LineInLimits, process_line-LineInLimits}
use my_tiny_network_library.Http.Context.{
  Context, expect_body, got_all, complete, LineResult, goes_on, bad_line, too_large, over_limit,
  reads_lines, Parsed, after_line, process_line, take_body, max_body_bytes,
}

-- What a complete request is: parsing has ended, and the body has the length that was announced,
-- which is within the limit.
pub record Complete (c : Context) : Type 0 where
  pub ended : c.state ≡ got_all
  pub announced : length c.request.body ≡ c.content_length
  pub bounded : c.content_length ≤ max_body_bytes

take_body-complete :
    (body : Bytes) (c c' : Context)
    → length body ≡ c.content_length
    → c.content_length ≤ max_body_bytes
    → take_body body c ≡ some (complete, c')
    → Complete c'
unfolding take_body
take_body-complete body c c' long small e = go (parse_multipart_body with_body) refl
  where
    with_body : Request
    with_body = record c.request { body = body }

    go : (o : Option (Bool × Request)) → parse_multipart_body with_body ≡ o → Complete c'
    go none f = cc (rw (f, take_body) at e)
    go (some (false, r)) f = cc (rw (f, take_body) at e)
    go (some (true, r)) f =
        let same : record c { request = r; state = got_all } ≡ c' =
          ground (arith, rw (f, take_body) at e) in
        subst Complete same (record {
          ended = refl;
          announced = ap length (parse_multipart_body-body with_body r true f) ∙ long;
          bounded = small;
        })

parse_body-complete :
    (c c' : Context) (input rest : Bytes)
    → InLimits c
    → c.state ≡ expect_body
    → Spec.parse_body c input ≡ some (complete, c', rest)
    → Complete c'
unfolding Spec.parse_body
parse_body-complete c c' input rest v body e =
    elim (Bool-cases (ltb (length input) c.content_length)) [
      | inl short ↦ cc (rw short at e)
      | inr long ↦
          take_body-complete (take c.content_length input) c c'
            (omega (arith, length-take c.content_length input, ltb→le _ _ long)) (v.body body)
            (beside-eq (drop c.content_length input) rest _ (complete, c') (rw long at e))
    ]

over_limit-ne-complete : (c : Context) (n : ℕ) → over_limit c n ≢ complete
over_limit-ne-complete c n e = ground arith

after_line-Complete :
    (resume : Context → Bytes → Option (Parsed Bytes)) (behind now : Bytes)
    (outcome : LineResult × Context) (c' : Context) (rest : Bytes)
    → LineInLimits outcome
    → ((c : Context) → InLimits c → resume c behind ≡ some (complete, c', rest) → Complete c')
    → after_line resume behind now outcome ≡ some (complete, c', rest)
    → Complete c'
after_line-Complete resume behind now (goes_on, c) c' rest v h e = h c v e
after_line-Complete resume behind now (bad_line, c) c' rest v h e = cc
after_line-Complete resume behind now (too_large, c) c' rest v h e = cc

-- A request that is reported complete has the body that its header announced, within the limit.
pub parse-Complete :
    (fuel time : ℕ) (c c' : Context) (input rest : Bytes)
    → InLimits c
    → parse fuel time c input ≡ some (complete, c', rest)
    → Complete c'
unfolding parse
parse-Complete zero time c c' input rest v e = cc
parse-Complete (suc fuel) time c c' input rest v e = elim (Bool-cases (reads_lines c.state)) [
  | inl lines ↦ elim (Option-cases (find crlf input)) [
    | inl f ↦
        absurd (over_limit-ne-complete c (length input) (ground (arith, rw (lines, f, parse) at e)))
    | inr (i, f) ↦
        after_line-Complete (parse fuel time) (drop (i + 2) input) input
          (process_line time (take i input) c) c' rest
          (process_line-LineInLimits time (take i input) c lines)
          (λ c₁ v₁ p. parse-Complete fuel time c₁ c' (drop (i + 2) input) rest v₁ p)
          (rw (lines, f, parse) at e)
  ]
  | inr other ↦ elim (no_lines c.state other) [
    | inl body ↦
        parse_body-complete c c' input rest v body
          (sym (parse-expect_body fuel time c input body) ∙ e)
    | inr done ↦ absurd (v.unfinished done)
  ]
]
