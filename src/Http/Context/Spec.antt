-- ===== src/Http/Context/Spec.antt =====
-- The parser over the unread bytes themselves, with no buffer: what the one over the buffer refines.
use my_tiny_network_library.Base.{
  ℕ, zero, suc, ◌+◌, true, false, ◌≡◌, arith, Option, none, some, if◌then◌else◌, ltb, length, take,
  drop, Bytes, find,
}
use my_tiny_network_library.Buffer.{crlf}
use my_tiny_network_library.Http.Context.{
  Context, expect_body, got_all, incomplete, complete, reads_lines, Parsed, over_limit, beside,
  after_line, process_line, take_body,
}

unfoldable pub parse_body : Context → Bytes → Option (Parsed Bytes)
parse_body c input =
    if ltb (length input) c.content_length
    then some (incomplete, c, input)
    else beside (drop c.content_length input) (take_body (take c.content_length input) c)

unfoldable pub parse : ℕ → ℕ → Context → Bytes → Option (Parsed Bytes)
parse zero time c input = none
parse (suc fuel) time c input = elim (reads_lines c.state) [
  | true ↦ elim (find crlf input) [
    | none ↦ some (over_limit c (length input), c, input)
    | some i ↦
        after_line (parse fuel time) (drop (i + 2) input) input (process_line time (take i input) c)
  ]
  | false ↦ elim c.state [ expect_body ↦ parse_body c input | _ ↦ some (complete, c, input) ]
]

-- The parser in the two states that read no lines.
pub parse-expect_body :
    (fuel time : ℕ) (c : Context) (input : Bytes)
    → c.state ≡ expect_body
    → parse (suc fuel) time c input ≡ parse_body c input
unfolding parse
parse-expect_body fuel time c input e = ground arith

pub parse-got_all :
    (fuel time : ℕ) (c : Context) (input : Bytes)
    → c.state ≡ got_all
    → parse (suc fuel) time c input ≡ some (complete, c, input)
unfolding parse
parse-got_all fuel time c input e = ground arith
