-- ===== src/Http/Context/Promise.antt =====
-- What a caller of `parseRequest` can rely on, over a valid buffer.
use my_tiny_network_library.Base.{ℕ, ◌+◌, ◌≡◌, subst, arith, some, length}
use my_tiny_network_library.Buffer.{Buffer}
use my_tiny_network_library.Buffer.Inv.{IsValid, contents, length-contents}
use my_tiny_network_library.Http.Context.{Context, incomplete, complete, Parsed, parse_request}
use my_tiny_network_library.Http.Context.Spec.{parse}
use my_tiny_network_library.Http.Context.Refine.{Refines, parse_request-Refines}
use my_tiny_network_library.Http.Context.Waiting.{InLimits, Waits, parse-Waits}
use my_tiny_network_library.Http.Context.Body.{Complete, parse-Complete}

pub parsed :
    (time : ℕ) (c : Context) (buf : Buffer) (out : Parsed Buffer)
    → IsValid buf
    → parse_request time c buf ≡ some out
    → IsValid out.2
      × (parse (length (contents buf) + 1) time c (contents buf)
          ≡ some (out.0, out.1, contents out.2))
parsed time c buf out v e =
    subst (λ o. Refines o (parse (length (contents buf) + 1) time c (contents buf))) e
      (parse_request-Refines time c buf v)

-- A call that asks for more leaves a valid buffer, and a context within the limits: in front of the
-- body, at most 16 KB of header have been seen, read or unread; in the body, fewer bytes are unread
-- than announced, and at most 10 MB are announced.
pub parse_request-Waits :
    (time : ℕ) (c c' : Context) (buf buf' : Buffer)
    → IsValid buf
    → InLimits c
    → parse_request time c buf ≡ some (incomplete, c', buf')
    → IsValid buf' × Waits c' (contents buf')
parse_request-Waits time c c' buf buf' v limits e =
    let (v', p) = parsed time c buf (incomplete, c', buf') v e in
    (
      v',
      parse-Waits _ time c c' (contents buf) (contents buf') limits
          (omega (arith, length-contents buf v, v.room, v.small)) p,
    )

-- A call that reports a complete request has read a body of the length that was announced, at most
-- 10 MB.
pub parse_request-Complete :
    (time : ℕ) (c c' : Context) (buf buf' : Buffer)
    → IsValid buf
    → InLimits c
    → parse_request time c buf ≡ some (complete, c', buf')
    → IsValid buf' × Complete c'
parse_request-Complete time c c' buf buf' v limits e =
    let (v', p) = parsed time c buf (complete, c', buf') v e in
    (v', parse-Complete _ time c c' (contents buf) (contents buf') limits p)
