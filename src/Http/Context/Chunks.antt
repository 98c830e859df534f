-- ===== src/Http/Context/Chunks.antt =====
-- `parseRequest` over a buffer that is filled in pieces.
use mathlib.Core.Option
use my_tiny_network_library.Base.{
  ℕ, ◌+◌, ◌≤◌, ◌≡◌, ◌≢◌, refl, sym, ap, ◌∙◌, subst, arith, Option-cases, inl, inr, Option, none,
  some, length, ◌++◌, Bytes, max_size,
}
use my_tiny_network_library.Buffer.{Buffer, append}
use my_tiny_network_library.Buffer.Inv.{IsValid, contents}
use my_tiny_network_library.Buffer.Contents.{append_lem}
use my_tiny_network_library.Http.Context.{
  Context, ParseState, expect_request_line, expect_headers, expect_body, got_all, incomplete,
  Parsed, parse_request,
}
use my_tiny_network_library.Http.Context.Times.{first-or-past, parse-any_time, parse-no_time}
use my_tiny_network_library.Http.Context.Spec.{parse}
use my_tiny_network_library.Http.Context.Limits.{parse_mono, parse_total}
use my_tiny_network_library.Http.Context.Refine.{Refines, parse_request-Refines}
use my_tiny_network_library.Http.Context.Incremental.{parse_resume}

-- A parsed state with the unread bytes in place of the buffer that holds them.
abbrev pub seen : Parsed Buffer → Parsed Bytes
seen (result, c, buf) = (result, c, contents buf)

pub seen-Refines :
    (o : Option (Parsed Buffer)) (o' : Option (Parsed Bytes))
    → Refines o o'
    → Option.map seen o ≡ o'
seen-Refines none o' h = sym h
seen-Refines (some p) o' (v, e) = sym e

-- The outcome does not depend on how much fuel is given, as long as it suffices.
pub parse_unique :
    (m n time : ℕ) (c : Context) (input : Bytes) (a b : Parsed Bytes)
    → parse m time c input ≡ some a
    → parse n time c input ≡ some b
    → a ≡ b
parse_unique m n time c input a b h k = cc (
  parse_mono m (m + n) time c input a (omega arith) h,
  parse_mono n (m + n) time c input b (omega arith) k,
)

-- `parseRequest` reports a result on every valid buffer: its loops end.
pub parse_request_total :
    (time : ℕ) (c : Context) (buf : Buffer)
    → IsValid buf
    → (out : Parsed Buffer) × (parse_request time c buf ≡ some out)
parse_request_total time c buf v = elim (Option-cases (parse_request time c buf)) [
  | inl e ↦
      let (out, p) = parse_total (length (contents buf) + 1) time c (contents buf) (omega arith) in
      cc (p, sym (seen-Refines _ _ (parse_request-Refines time c buf v)), ap (Option.map seen) e)
  | inr found ↦ found
]

-- What the parser over the readable bytes says of a call.
request-parse :
    (time : ℕ) (c : Context) (buf : Buffer) (input : Bytes)
    → IsValid buf
    → contents buf ≡ input
    → Option.map seen (parse_request time c buf) ≡ parse (length input + 1) time c input
request-parse time c buf input v e =
    subst (λ xs. Option.map seen (parse_request time c buf) ≡ parse (length xs + 1) time c xs) e
      (seen-Refines _ _ (parse_request-Refines time c buf v))

-- what two calls at the same time come to, for any buffer in which the first left the rest
append_at :
    (time : ℕ) (c c' : Context) (input rest more : Bytes) (buf buf' : Buffer)
    → parse (length input + 1) time c input ≡ some (incomplete, c', rest)
    → IsValid buf
    → contents buf ≡ input ++ more
    → IsValid buf'
    → contents buf' ≡ rest ++ more
    → Option.map seen (parse_request time c' buf') ≡ Option.map seen (parse_request time c buf)
append_at time c c' input rest more buf buf' asked valid whole valid' left =
    let n = length (rest ++ more) + 1 in
    let (out, p) = parse_total n time c' (rest ++ more) (omega arith) in
    let (out', q) = parse_total (length (input ++ more) + 1) time c (input ++ more) (omega arith) in
    let resumed = parse_resume (length input + 1) n time c c' input rest more out asked p in
    request-parse time c' buf' _ valid' left
    ∙ p
    ∙ ap some (parse_unique _ _ time c (input ++ more) out out' resumed q)
    ∙ sym q
    ∙ sym (request-parse time c buf _ valid whole)

-- The time at which a whole request would have come to be parsed in the same way: that of the call
-- that ends the request line.
abbrev pub line_time : ParseState → ℕ → ℕ → ℕ
line_time expect_request_line time time' = time'
line_time _ time time' = time

line_time-past :
    (s : ParseState) (time time' : ℕ) → s ≢ expect_request_line → line_time s time time' ≡ time
line_time-past expect_request_line time time' h = absurd (h refl)
line_time-past expect_headers time time' h = refl
line_time-past expect_body time time' h = refl
line_time-past got_all time time' h = refl

-- A request may arrive in pieces, each with its own receive time: when a call over a valid buffer has
-- asked for more, the next call, with more bytes behind what was left, has the same result, context
-- and unread bytes as one call with all the bytes at once, at the receive time of the call that ends
-- the request line; the bytes fit into a vector.
pub parse_request-append :
    (time time' : ℕ) (c c' : Context) (buf buf' : Buffer) (more : Bytes)
    → IsValid buf
    → buf.writer_index + length more ≤ max_size
    → buf'.writer_index + length more ≤ max_size
    → parse_request time c buf ≡ some (incomplete, c', buf')
    → Option.map seen (parse_request time' c' (append more buf'))
      ≡ Option.map seen (parse_request (line_time c'.state time time') c (append more buf))
parse_request-append time time' c c' buf buf' more v fits fits' e =
    let input = contents buf in
    let (v', asked) =
      subst (λ o. Refines o (parse (length input + 1) time c input)) e
        (parse_request-Refines time c buf v) in
    let (valid, whole) = append_lem more buf v fits in
    let (valid', rest) = append_lem more buf' v' fits' in
    elim (first-or-past c'.state) [
      | inl first ↦
          subst
            (λ t.
              Option.map seen (parse_request time' c' (append more buf'))
              ≡ Option.map seen (parse_request t c (append more buf)))
            (sym (ap (λ s. line_time s time time') first))
            (append_at time' c c' input (contents buf') more (append more buf) (append more buf')
              (parse-no_time _ time time' c c' input (contents buf') asked first) valid whole valid'
              rest)
      | inr past ↦
          subst
            (λ t.
              Option.map seen (parse_request time' c' (append more buf'))
              ≡ Option.map seen (parse_request t c (append more buf)))
            (sym (line_time-past c'.state time time' past))
            (request-parse time' c' (append more buf') _ valid' rest
              ∙ parse-any_time _ time' time c' (contents buf' ++ more) past
              ∙ sym (request-parse time c' (append more buf') _ valid' rest)
              ∙ append_at time c c' input (contents buf') more (append more buf) (append more buf')
                  asked valid whole valid' rest)
    ]
