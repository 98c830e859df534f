-- ===== src/Http/Multipart/Keeps.antt =====
-- Reading the parts of a body leaves the body as it is.
use my_tiny_network_library.Base.{
  ℕ, zero, suc, ◌+◌, Bool, not, ◌≡◌, refl, ◌∙◌, inl, inr, arith, Bool-cases, Option, none, some,
  length, Bytes, is_empty, codes, ◌++◌,
}
use my_tiny_network_library.Http.Chars.{find_from}
use my_tiny_network_library.Http.Request.{Request, get_header, add_body_form, add_file}
use my_tiny_network_library.Http.Multipart.Rounds.{read_part_rule, multipart_round_rule}
use my_tiny_network_library.Http.Multipart.{
  is_some, parameter_value, parse_multipart_body, store_part, multipart_round, multipart_loop,
  Round, returns, continues,
}

-- The body of what a round leaves.
abbrev RoundKeeps : Bytes → Option Round → Type 0
RoundKeeps body none = Unit {0}
RoundKeeps body (some (returns fine r)) = r.body ≡ body
RoundKeeps body (some (continues next r)) = r.body ≡ body

store_part-body :
    (disposition content_type content : Bytes) (r r' : Request)
    → store_part disposition content_type content r ≡ some r'
    → r'.body ≡ r.body
unfolding store_part add_body_form add_file
store_part-body disposition content_type content r r' e = ground arith

multipart_round-RoundKeeps :
    (boundary body : Bytes) (cursor : ℕ) (r : Request)
    → RoundKeeps r.body (multipart_round boundary body cursor r)
multipart_round-RoundKeeps boundary body cursor r =
    multipart_round_rule (RoundKeeps r.body) boundary body cursor r (λ _. refl)
      λ part_start header_end next ahead inside.
        read_part_rule (RoundKeeps r.body) body part_start header_end next r refl
          (λ disposition content_type content r' e.
            store_part-body disposition content_type content r r' e)

multipart_loop-body :
    (fuel : ℕ) (boundary body : Bytes) (cursor : ℕ) (r r' : Request) (fine : Bool)
    → multipart_loop fuel boundary body cursor r ≡ some (fine, r')
    → r'.body ≡ r.body
unfolding multipart_loop
multipart_loop-body zero boundary body cursor r r' fine e = cc
multipart_loop-body (suc fuel) boundary body cursor r r' fine e =
    go (multipart_round boundary body cursor r) refl
      (multipart_round-RoundKeeps boundary body cursor r)
      (λ next r₁. multipart_loop-body fuel boundary body next r₁ r' fine)
  where
    go :
        (o : Option Round)
        → multipart_round boundary body cursor r ≡ o
        → RoundKeeps r.body o
        → ((next : ℕ) (r₁ : Request)
            → multipart_loop fuel boundary body next r₁ ≡ some (fine, r')
            → r'.body ≡ r₁.body)
        → r'.body ≡ r.body
    go none f k ih = cc (rw (f, multipart_loop) at e)
    go (some (returns fine' r₁)) f k ih = ground (arith, k, rw (f, multipart_loop) at e)
    go (some (continues next r₁)) f k ih = ih next r₁ (rw (f, multipart_loop) at e) ∙ k

pub parse_multipart_body-body :
    (r r' : Request) (fine : Bool) → parse_multipart_body r ≡ some (fine, r') → r'.body ≡ r.body
unfolding parse_multipart_body
parse_multipart_body-body r r' fine e =
    let content_type = get_header (codes "Content-Type") r in
    let boundary = parameter_value content_type (codes "boundary") in
    elim (Bool-cases (not (is_some (find_from (codes "multipart/form-data") 0 content_type)))) [
      | inl other ↦ ground (arith, rw other at e)
      | inr form ↦ elim (Bool-cases (is_empty boundary)) [
        | inl missing ↦ ground (arith, rw (form, missing) at e)
        | inr named ↦
            multipart_loop-body (length r.body + 1) (codes "--" ++ boundary) r.body 0 r r' fine
              (rw (form, named) at e)
      ]
    ]
