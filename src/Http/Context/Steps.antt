-- ===== src/Http/Context/Steps.antt =====
-- The cases of the parser's states and of its step for one line.
use my_tiny_network_library.Base.{false, ◌≡◌, refl, ◌⊎◌, inl, inr}
use my_tiny_network_library.Http.Context.{
  ParseState, expect_request_line, expect_headers, expect_body, got_all, reads_lines, LineResult,
  goes_on, bad_line, too_large,
}

pub LineResult-cases : (r : LineResult) → (r ≡ goes_on) ⊎ ((r ≡ bad_line) ⊎ (r ≡ too_large))
LineResult-cases goes_on = inl refl
LineResult-cases bad_line = inr (inl refl)
LineResult-cases too_large = inr (inr refl)

pub no_lines : (s : ParseState) → reads_lines s ≡ false → (s ≡ expect_body) ⊎ (s ≡ got_all)
no_lines expect_request_line h = cc
no_lines expect_headers h = cc
no_lines expect_body h = inl refl
no_lines got_all h = inr refl
