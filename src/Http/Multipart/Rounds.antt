-- ===== src/Http/Multipart/Rounds.antt =====
-- The loops over a multipart body end: each round moves the cursor forward inside the body.

use my_tiny_network_library.Base.{
  ℕ, zero, suc, ◌+◌, ◌-◌, ◌≤◌, ◌<◌, Bool, true, false, not, ◌≡◌, refl, inl, inr, arith, Bool-cases,
  Option-cases, Option, none, some, ltb, ltb→lt, length, drop, slice, Bytes, equal, is_empty, codes,
  find, find_bound, break_at, length-drop, ◌++◌, [],
}
use my_tiny_network_library.Buffer.{crlf}
use my_tiny_network_library.Http.Chars.{find_from}
use my_tiny_network_library.Http.Request.{Request, get_header}
use my_tiny_network_library.Http.Multipart.{
  is_some, parameter_value, line_end_of, note_header, part_headers, store_part, Round, returns,
  continues, read_part, multipart_round, multipart_loop, parse_multipart_body,
}

-- An occurrence found from a position on lies behind it and inside the text.
pub find_from_bound :
    (key : Bytes) (pos : ℕ) (text : Bytes) (i : ℕ)
    → find_from key pos text ≡ some i
    → (pos ≤ i) × (i + length key ≤ length text)
unfolding find_from
find_from_bound key pos text i h = elim (Option-cases (find key (drop pos text))) [
  | inl e ↦ ground (arith, rw e at h)
  | inr (j, e) ↦ ground (arith, rw e at h, find_bound key (drop pos text) j e, length-drop pos text)
]

line_end-ge :
    (line_start header_end : ℕ) (o : Option ℕ)
    → line_start < header_end
    → ((i : ℕ) → o ≡ some i → line_start ≤ i)
    → line_start ≤ line_end_of header_end o
line_end-ge line_start header_end none h f = omega arith
line_end-ge line_start header_end (some i) h f = ground (arith, f i refl)

-- The loop over the lines of a part's headers ends.
part_headers_total :
    (fuel : ℕ) (body : Bytes) (line_start header_end : ℕ) (found : Bytes × Bytes)
    → header_end - line_start < fuel
    → (r : Option (Bytes × Bytes)) × (part_headers fuel body line_start header_end found ≡ some r)
unfolding part_headers
part_headers_total zero body line_start header_end found h = absurd (omega arith)
part_headers_total (suc fuel) body line_start header_end found h =
    let line_end = line_end_of header_end (find_from crlf line_start body) in
    let (key, after) = break_at b':' (slice line_start (line_end - line_start) body) in
    elim (Bool-cases (ltb line_start header_end)) [
      | inl more ↦ elim (Option-cases after) [
        | inl e ↦ (none, rw (more, e))
        | inr (value, e) ↦
            let (r, p) =
              part_headers_total fuel body (line_end + 2) header_end (note_header key value found) (
                omega (
                  arith,
                  ltb→lt _ _ more,
                  line_end-ge line_start header_end (find_from crlf line_start body)
                      (ltb→lt _ _ more) (λ i e. (find_from_bound crlf line_start body i e).0),
                )) in
            (r, rw (more, e) p)
      ]
      | inr done ↦ (some found, rw done)
    ]

-- What holds of a part that is refused, and of one that is stored, holds of a part.
pub read_part_rule :
    (P : Option Round → Type 0) (body : Bytes) (part_start header_end next_marker : ℕ) (r : Request)
    → P (some (returns false r))
    → ((disposition content_type content : Bytes) (r' : Request)
        → store_part disposition content_type content r ≡ some r'
        → P (some (continues (next_marker + 2) r')))
    → P (read_part body part_start header_end next_marker r)
unfolding read_part
read_part_rule P body part_start header_end next_marker r refused stored =
    let (found, e) =
      part_headers_total (suc (header_end - part_start)) body part_start header_end ([], [])
        (omega arith) in
    go found e
  where
    content : Bytes
    content = slice (header_end + 4) (next_marker - (header_end + 4)) body

    keep :
        (disposition content_type : Bytes) (o : Option Request)
        → store_part disposition content_type content r ≡ o
        → P (some (elim o [ none ↦ returns false r | some r' ↦ continues (next_marker + 2) r' ]))
    keep disposition content_type none e = refused
    keep disposition content_type (some r') e = stored disposition content_type content r' e

    go :
        (found : Option (Bytes × Bytes))
        → part_headers (suc (header_end - part_start)) body part_start header_end ([], [])
          ≡ some found
        → P (read_part body part_start header_end next_marker r)
    go none e = rw (e, read_part) refused
    go (some (disposition, content_type)) e =
        rw (e, read_part) (keep disposition content_type _ refl)

-- What holds where the loop returns, and of every part whose end lies ahead of the cursor and inside
-- the body, holds of a round.
pub multipart_round_rule :
    (P : Option Round → Type 0) (boundary body : Bytes) (cursor : ℕ) (r : Request)
    → ((fine : Bool) → P (some (returns fine r)))
    → ((part_start header_end next : ℕ)
        → cursor < next + 2
        → next + 2 ≤ length body
        → P (read_part body part_start header_end next r))
    → P (multipart_round boundary body cursor r)
unfolding multipart_round
multipart_round_rule P boundary body cursor r stop go =
    elim (Option-cases (find_from boundary cursor body)) [
      | inl e ↦ rw (e, multipart_round) (stop false)
      | inr (marker, e) ↦
          let after = marker + length boundary in
          elim (Bool-cases (equal (slice after 2 body) (codes "--"))) [
            | inl last ↦ rw (e, multipart_round) (rw last (stop true))
            | inr more ↦ elim (Bool-cases (equal (slice after 2 body) crlf)) [
              | inr bad ↦ rw (e, multipart_round) (rw (more, bad) (stop false))
              | inl line ↦ elim (Option-cases (find_from (crlf ++ crlf) (after + 2) body)) [
                | inl none_end ↦ rw (e, multipart_round) (rw (more, line, none_end) (stop false))
                | inr (header_end, f) ↦
                    elim (Option-cases (find_from (crlf ++ boundary) (header_end + 4) body)) [
                      | inl no_next ↦
                          rw (e, multipart_round) (rw (more, line, f, no_next) (stop false))
                      | inr (next, g) ↦
                          rw (e, multipart_round)
                            (rw (more, line, f, g)
                              (go (after + 2) header_end next
                                (omega (
                                  arith,
                                  find_from_bound boundary cursor body marker e,
                                  find_from_bound (crlf ++ crlf) (after + 2) body header_end f,
                                  find_from_bound (crlf ++ boundary) (header_end + 4) body next g,
                                ))
                                (omega (
                                  arith,
                                  find_from_bound (crlf ++ boundary) (header_end + 4) body next g,
                                ))))
                    ]
              ]
            ]
          ]
    ]

-- A round ends, and where it goes on, the cursor has moved forward and lies inside the body.
abbrev Moves : ℕ → Bytes → Option Round → Type 0
Moves cursor body none = ⊥
Moves cursor body (some (returns fine r)) = Unit {0}
Moves cursor body (some (continues next r)) = (cursor < next) × (next ≤ length body)

multipart_round-Moves :
    (boundary body : Bytes) (cursor : ℕ) (r : Request)
    → Moves cursor body (multipart_round boundary body cursor r)
multipart_round-Moves boundary body cursor r =
    multipart_round_rule (Moves cursor body) boundary body cursor r (λ _. tt)
      λ part_start header_end next ahead inside.
        read_part_rule (Moves cursor body) body part_start header_end next r tt
          (λ _ _ _ _ _. (ahead, inside))

multipart_loop_total :
    (fuel : ℕ) (boundary body : Bytes) (cursor : ℕ) (r : Request)
    → cursor ≤ length body
    → length body - cursor < fuel
    → (out : Bool × Request) × (multipart_loop fuel boundary body cursor r ≡ some out)
unfolding multipart_loop
multipart_loop_total zero boundary body cursor r h k = absurd (omega arith)
multipart_loop_total (suc fuel) boundary body cursor r h k =
    go (multipart_round boundary body cursor r) refl (multipart_round-Moves boundary body cursor r)
      (λ next r'. multipart_loop_total fuel boundary body next r')
  where
    go :
        (o : Option Round)
        → multipart_round boundary body cursor r ≡ o
        → Moves cursor body o
        → ((next : ℕ) (r' : Request)
            → next ≤ length body
            → length body - next < fuel
            → (out : Bool × Request) × (multipart_loop fuel boundary body next r' ≡ some out))
        → (out : Bool × Request) × (multipart_loop (suc fuel) boundary body cursor r ≡ some out)
    go none e m ih = absurd m
    go (some (returns fine r')) e m ih = ((fine, r'), rw (e, multipart_loop))
    go (some (continues next r')) e m ih =
        let (out, p) = ih next r' m.1 (omega (arith, m.0, m.1)) in (out, rw (e, multipart_loop) p)

-- Reading a multipart body always ends, whatever the body holds.
pub parse_multipart_body_total :
    (r : Request) → (out : Bool × Request) × (parse_multipart_body r ≡ some out)
unfolding parse_multipart_body
parse_multipart_body_total r =
    let content_type = get_header (codes "Content-Type") r in
    let boundary = parameter_value content_type (codes "boundary") in
    elim (Bool-cases (not (is_some (find_from (codes "multipart/form-data") 0 content_type)))) [
      | inl other ↦ ((true, r), rw other)
      | inr form ↦ elim (Bool-cases (is_empty boundary)) [
        | inl missing ↦ ((false, r), rw (form, missing))
        | inr named ↦
            let (out, p) =
              multipart_loop_total (length r.body + 1) (codes "--" ++ boundary) r.body 0 r
                (omega arith) (omega arith) in
            (out, rw (form, named) p)
      ]
    ]
