-- ===== src/Http/Context/Times.antt =====
-- Which receive time a call of `parseRequest` uses: that of the call that ends the request line.
use my_tiny_network_library.Base.{
  ℕ, zero, suc, ◌+◌, Bool, true, false, ◌≡◌, ◌≢◌, ◌⊎◌, refl, sym, ◌∙◌, inl, inr, arith, Bool-cases,
  Option-cases, Option, none, some, ltb, length, take, drop, Bytes, find, add_size, ap, is_empty,
  break_at, if◌then◌else◌,
}
use my_tiny_network_library.Buffer.{crlf}
use my_tiny_network_library.Http.Request.{Request}
use my_tiny_network_library.Http.Context.Steps.{no_lines}
use my_tiny_network_library.Http.Context.Spec.{parse, parse-expect_body, parse-got_all}
use my_tiny_network_library.Http.Context.Incremental.{parse_body-incomplete}
use my_tiny_network_library.Http.Context.{
  Context, ParseState, process_request_line, max_header_bytes, max_body_bytes, expect_request_line,
  expect_headers, expect_body, got_all, incomplete, LineResult, goes_on, bad_line, too_large,
  reads_lines, Parsed, after_line, first_line, header_line, process_line, prepare_body,
}

-- the request line has been read
abbrev pub Past : Context → Type 0
Past c = c.state ≢ expect_request_line

pub first-or-past : (s : ParseState) → (s ≡ expect_request_line) ⊎ (s ≢ expect_request_line)
first-or-past expect_request_line = inl refl
first-or-past expect_headers = inr (λ e. cc e)
first-or-past expect_body = inr (λ e. cc e)
first-or-past got_all = inr (λ e. cc e)

-- a loop that goes on does so behind the request line
abbrev GoesPast : LineResult × Context → Type 0
GoesPast (goes_on, c) = Past c
GoesPast (bad_line, c) = Unit
GoesPast (too_large, c) = Unit

prepare_body-state : (c : Context) → (prepare_body c).1.state ≡ c.state
unfolding prepare_body
prepare_body-state c = ground arith

first_line-GoesPast : (time : ℕ) (line : Bytes) (c : Context) → GoesPast (first_line time line c)
unfolding first_line
first_line-GoesPast time line c = go (process_request_line line c.request)
  where
    go :
        (read : Bool × Request)
        → GoesPast (
            if read.0
            then (
              goes_on,
              record c { request = record read.1 { receive_time = time }; state = expect_headers },
            )
            else (bad_line, record c { request = read.1 }))
    go (true, r) = λ e. cc e
    go (false, r) = tt

header_line-GoesPast : (line : Bytes) (c : Context) → Past c → GoesPast (header_line line c)
unfolding header_line
header_line-GoesPast line c p = go _ refl
  where
    go : (value : Option Bytes) → (break_at b':' line).1 ≡ value → GoesPast (header_line line c)
    go (some value) e = rw (header_line, e) p
    go none e = last _ _ _ refl refl refl
      where
        last :
            (blank fine long : Bool)
            → is_empty line ≡ blank
            → (prepare_body c).0 ≡ fine
            → ltb max_body_bytes (prepare_body c).1.content_length ≡ long
            → GoesPast (header_line line c)
        last false fine long x y z = rw (header_line, e, x) tt
        last true false long x y z = rw (header_line, e, x, y) tt
        last true true true x y z = rw (header_line, e, x, y, z) tt
        last true true false x y z = rw (header_line, e, x, y, z) (λ k. cc k)

process_line-GoesPast :
    (time : ℕ) (line : Bytes) (c : Context) → GoesPast (process_line time line c)
unfolding process_line
process_line-GoesPast time line c = go _ _ refl refl
  where
    c' : Context
    c' = record c { header_bytes = add_size c.header_bytes (length line + 2) }

    go :
        (s : ParseState) (long : Bool)
        → c.state ≡ s
        → ltb max_header_bytes (add_size c.header_bytes (length line + 2)) ≡ long
        → GoesPast (process_line time line c)
    go s true e k = rw (process_line, k) tt
    go expect_request_line false e k = rw (process_line, k, e) (first_line-GoesPast time line c')
    go expect_headers false e k =
        rw (process_line, k, e) (header_line-GoesPast line c' (λ h. cc (h, e)))
    go expect_body false e k =
        rw (process_line, k, e) (header_line-GoesPast line c' (λ h. cc (h, e)))
    go got_all false e k = rw (process_line, k, e) (header_line-GoesPast line c' (λ h. cc (h, e)))

process_line-any_time :
    (t u : ℕ) (line : Bytes) (c : Context) → Past c → process_line t line c ≡ process_line u line c
unfolding process_line
process_line-any_time t u line c p = ground arith

after_line-same :
    (resume resume' : Context → Bytes → Option (Parsed Bytes)) (behind now : Bytes)
    (outcome : LineResult × Context)
    → GoesPast outcome
    → ((c : Context) → Past c → resume c behind ≡ resume' c behind)
    → after_line resume behind now outcome ≡ after_line resume' behind now outcome
after_line-same resume resume' behind now (goes_on, c) g h = h c g
after_line-same resume resume' behind now (bad_line, c) g h = refl
after_line-same resume resume' behind now (too_large, c) g h = refl

-- Behind the request line the time makes no difference.
pub parse-any_time :
    (fuel t u : ℕ) (c : Context) (input : Bytes)
    → Past c
    → parse fuel t c input ≡ parse fuel u c input
unfolding parse
parse-any_time zero t u c input p = refl
parse-any_time (suc fuel) t u c input p = elim (Bool-cases (reads_lines c.state)) [
  | inl lines ↦ elim (Option-cases (find crlf input)) [
    | inl f ↦ rw (parse, lines, f) refl
    | inr (i, f) ↦
        rw (parse, lines, f)
          (ap (after_line (parse fuel t) (drop (i + 2) input) input)
              (process_line-any_time t u (take i input) c p)
            ∙ after_line-same (parse fuel t) (parse fuel u) (drop (i + 2) input) input _
                (process_line-GoesPast u (take i input) c)
                (λ c₁ q. parse-any_time fuel t u c₁ (drop (i + 2) input) q))
  ]
  | inr other ↦ rw (parse, other) refl
]

-- A call that asks for more does not go back to the request line.
after_line-Past :
    (resume : Context → Bytes → Option (Parsed Bytes)) (behind now : Bytes)
    (outcome : LineResult × Context) (c' : Context) (rest : Bytes)
    → GoesPast outcome
    → ((c₁ : Context) → Past c₁ → resume c₁ behind ≡ some (incomplete, c', rest) → Past c')
    → after_line resume behind now outcome ≡ some (incomplete, c', rest)
    → Past c'
after_line-Past resume behind now (goes_on, c) c' rest g h e = h c g e
after_line-Past resume behind now (bad_line, c) c' rest g h e = absurd (cc e)
after_line-Past resume behind now (too_large, c) c' rest g h e = absurd (cc e)

parse-Past :
    (fuel time : ℕ) (c c' : Context) (input rest : Bytes)
    → Past c
    → parse fuel time c input ≡ some (incomplete, c', rest)
    → Past c'
unfolding parse
parse-Past zero time c c' input rest p e = absurd (cc e)
parse-Past (suc fuel) time c c' input rest p e = elim (Bool-cases (reads_lines c.state)) [
  | inl lines ↦ elim (Option-cases (find crlf input)) [
    | inl f ↦
        let (same, _) = stays c c' input rest lines f e in λ k. p (ap (λ c. c.state) (sym same) ∙ k)
    | inr (i, f) ↦
        after_line-Past (parse fuel time) (drop (i + 2) input) input
          (process_line time (take i input) c) c' rest (process_line-GoesPast time (take i input) c)
          (λ c₁ q h. parse-Past fuel time c₁ c' (drop (i + 2) input) rest q h)
          (rw (lines, f, parse) at e)
  ]
  | inr other ↦ elim (no_lines c.state other) [
    | inl body ↦
        let (same, _, _) =
          parse_body-incomplete c c' input rest
            (sym (parse-expect_body fuel time c input body) ∙ e) in
        λ k. p (ap (λ c. c.state) (sym same) ∙ k)
    | inr done ↦ absurd (cc (sym (parse-got_all fuel time c input done) ∙ e))
  ]
]
  where
    stays :
        (c c' : Context) (input rest : Bytes)
        → reads_lines c.state ≡ true
        → find crlf input ≡ none
        → parse (suc fuel) time c input ≡ some (incomplete, c', rest)
        → (c' ≡ c) × (rest ≡ input)
    stays c c' input rest lines f e = ground (arith, rw (lines, f, parse) at e)

-- A call that asks for more in front of the end of the request line has not used the time.
pub parse-no_time :
    (fuel t u : ℕ) (c c' : Context) (input rest : Bytes)
    → parse fuel t c input ≡ some (incomplete, c', rest)
    → c'.state ≡ expect_request_line
    → parse fuel u c input ≡ some (incomplete, c', rest)
unfolding parse
parse-no_time zero t u c c' input rest e first = absurd (cc e)
parse-no_time (suc fuel) t u c c' input rest e first = elim (first-or-past c.state) [
  | inr past ↦ sym (parse-any_time (suc fuel) t u c input past) ∙ e
  | inl here ↦ elim (Option-cases (find crlf input)) [
    | inl f ↦ rw (parse, here, f) (rw (here, f, parse) at e)
    | inr (i, f) ↦ absurd (
        after_line-Past (parse fuel t) (drop (i + 2) input) input (process_line t (take i input) c)
          c' rest (process_line-GoesPast t (take i input) c)
          (λ c₁ q h. parse-Past fuel t c₁ c' (drop (i + 2) input) rest q h)
          (rw (here, f, parse) at e) first)
  ]
]
