-- ===== src/Http/Context/Waiting.antt =====
-- The limits of the class: how much unread input a call leaves behind that asks for more, and how
-- long the body of a complete request can be.
use my_tiny_network_library.Base.{
  ℕ, zero, suc, ◌+◌, ◌≤◌, ◌<◌, true, ◌≡◌, ◌≢◌, ◌⊎◌, sym, ◌∙◌, subst, inl, inr, arith, Bool-cases,
  Option-cases, Option, some, ltb→lt, length, take, drop, Bytes, find, length-drop, add_size,
  add_size-eq, max_size,
}
use my_tiny_network_library.Buffer.{crlf}
use my_tiny_network_library.Http.Context.Steps.{no_lines}
use my_tiny_network_library.Http.Context.Incremental.{parse_body-incomplete}
use my_tiny_network_library.Http.Context.Spec
use my_tiny_network_library.Http.Context.Spec.{parse, parse-expect_body, parse-got_all}
use my_tiny_network_library.Http.Context.{
  Context, expect_body, got_all, incomplete, over_limit, LineResult, goes_on, bad_line, too_large,
  reads_lines, Parsed, after_line, first_line, header_line, process_line, prepare_body,
  max_header_bytes, max_body_bytes,
}

-- The context of a request that is still being read: the counters are within their limits.
pub record InLimits (c : Context) : Type 0 where
  pub unfinished : c.state ≢ got_all
  pub headers : c.header_bytes ≤ max_header_bytes
  pub body : c.state ≡ expect_body → c.content_length ≤ max_body_bytes

-- A line after which the parser goes on leaves the counters within their limits.
abbrev pub LineInLimits : LineResult × Context → Type 0
LineInLimits (goes_on, c) = InLimits c
LineInLimits (bad_line, c) = Unit {0}
LineInLimits (too_large, c) = Unit {0}

first_line-LineInLimits :
    (time : ℕ) (line : Bytes) (c : Context)
    → c.header_bytes ≤ max_header_bytes
    → LineInLimits (first_line time line c)
unfolding first_line
first_line-LineInLimits time line c h = ground arith

prepare_body-header_bytes : (c : Context) → (prepare_body c).1.header_bytes ≡ c.header_bytes
unfolding prepare_body
prepare_body-header_bytes c = ground arith

header_line-LineInLimits :
    (line : Bytes) (c : Context)
    → reads_lines c.state ≡ true
    → c.header_bytes ≤ max_header_bytes
    → LineInLimits (header_line line c)
unfolding header_line
header_line-LineInLimits line c s h = ground (arith, prepare_body-header_bytes c)

pub process_line-LineInLimits :
    (time : ℕ) (line : Bytes) (c : Context)
    → reads_lines c.state ≡ true
    → LineInLimits (process_line time line c)
unfolding process_line
process_line-LineInLimits time line c s =
    let counted = record c { header_bytes = add_size c.header_bytes (length line + 2) } in
    ground (arith, first_line-LineInLimits time line counted, header_line-LineInLimits line counted)

-- What is left when the parser asks for more: within the header limit in front of the body, and
-- fewer bytes than the body wants, which itself is within its limit.
abbrev pub Waits : Context → Bytes → Type 0
Waits c rest =
    InLimits c
    × (((reads_lines c.state ≡ true) × (c.header_bytes + length rest ≤ max_header_bytes))
        ⊎ ((c.state ≡ expect_body)
            × (length rest < c.content_length)
            × (c.content_length ≤ max_body_bytes)))

over_limit-Waits :
    (c : Context) (input : Bytes)
    → InLimits c
    → length input ≤ max_size
    → reads_lines c.state ≡ true
    → over_limit c (length input) ≡ incomplete
    → Waits c input
over_limit-Waits c input v small lines e =
    (v, inl (lines, ground (arith, add_size-eq c.header_bytes (length input), v.headers)))

-- along the equations that say that nothing was read
move : {c c' : Context} {input rest : Bytes} → c' ≡ c → rest ≡ input → Waits c input → Waits c' rest
move {c} {rest = rest} p q w =
    subst (λ d. Waits d rest) (sym p) (subst (λ xs. Waits c xs) (sym q) w)

parse_body-Waits :
    (c c' : Context) (input rest : Bytes)
    → InLimits c
    → c.state ≡ expect_body
    → Spec.parse_body c input ≡ some (incomplete, c', rest)
    → Waits c' rest
parse_body-Waits c c' input rest v body e =
    let (p, q, short) = parse_body-incomplete c c' input rest e in
    move p q (v, inr (body, ltb→lt _ _ short, v.body body))

after_line-Waits :
    (resume : Context → Bytes → Option (Parsed Bytes)) (behind now : Bytes)
    (outcome : LineResult × Context) (c' : Context) (rest : Bytes)
    → LineInLimits outcome
    → ((c : Context) → InLimits c → resume c behind ≡ some (incomplete, c', rest) → Waits c' rest)
    → after_line resume behind now outcome ≡ some (incomplete, c', rest)
    → Waits c' rest
after_line-Waits resume behind now (goes_on, c) c' rest v h e = h c v e
after_line-Waits resume behind now (bad_line, c) c' rest v h e = cc
after_line-Waits resume behind now (too_large, c) c' rest v h e = cc

pub parse-Waits :
    (fuel time : ℕ) (c c' : Context) (input rest : Bytes)
    → InLimits c
    → length input ≤ max_size
    → parse fuel time c input ≡ some (incomplete, c', rest)
    → Waits c' rest
unfolding parse
parse-Waits zero time c c' input rest v small e = cc
parse-Waits (suc fuel) time c c' input rest v small e = elim (Bool-cases (reads_lines c.state)) [
  | inl lines ↦ elim (Option-cases (find crlf input)) [
    | inl f ↦
        let now = rw (lines, f, parse) at e in
        move {c = c} {c' = c'} {input = input} {rest = rest} (ground (arith, now))
          (ground (arith, now)) (over_limit-Waits c input v small lines (ground (arith, now)))
    | inr (i, f) ↦
        after_line-Waits (parse fuel time) (drop (i + 2) input) input
          (process_line time (take i input) c) c' rest
          (process_line-LineInLimits time (take i input) c lines)
          (λ c₁ v₁ p.
            parse-Waits fuel time c₁ c' (drop (i + 2) input) rest v₁
              (omega (arith, length-drop (i + 2) input)) p)
          (rw (lines, f, parse) at e)
  ]
  | inr other ↦ elim (no_lines c.state other) [
    | inl body ↦
        parse_body-Waits c c' input rest v body (sym (parse-expect_body fuel time c input body) ∙ e)
    | inr done ↦ cc (sym (parse-got_all fuel time c input done) ∙ e)
  ]
]
