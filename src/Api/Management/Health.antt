-- ===== src/Api/Management/Health.antt =====
-- What the server says of its registrations.
use my_tiny_network_library.Base.{
  ℕ, suc, ◌≡◌, ◌≤◌, ◌<◌, refl, sym, subst, ◌∙◌, arith, Bool, true, false, ◌&&◌, List, [], ◌∷◌,
  Option, none, some, if◌then◌else◌, ltb, Bytes, codes, length,
}
use my_tiny_network_library.Http.Request.{Request, get}
use my_tiny_network_library.Http.Response.{
  Response, StatusCode, ok, service_unavailable, set_content_type, add_header,
}
use my_tiny_network_library.Inference.Types.{InferenceBackend}
use my_tiny_network_library.Inference.Registry.{
  ModelRegistry, Registration, available_count, healthy_count,
}
use my_tiny_network_library.Api.Json.{Json}
use my_tiny_network_library.Api.Management.{registrations_of, health_body, handle_health}

-- `n` of the elements of a list are as `P` says.
pub data Counts {A : Type 0} (P : A → Type 0) : List A → ℕ → Type 0 where
  no_one : Counts P [] 0
  hit : {x : A} {xs : List A} {n : ℕ} → P x → Counts P xs n → Counts P (x ∷ xs) (suc n)
  miss : {x : A} {xs : List A} {n : ℕ} → (¬ P x) → Counts P xs n → Counts P (x ∷ xs) n

-- The words for `n` healthy ones of `all`, the status, and whether the server serves.
pub data Verdict (n all : ℕ) : Bytes → StatusCode → Bool → Type 0 where
  all_healthy : n ≡ all → 0 < n → Verdict n all (codes "healthy") ok true
  some_healthy : n < all → 0 < n → Verdict n all (codes "degraded") ok true
  none_healthy : n ≡ 0 → Verdict n all (codes "unavailable") service_unavailable false

module _ {A : Type 0} {P : A → Type 0} where
  Counts-le : (xs : List A) (n : ℕ) → Counts P xs n → n ≤ length xs
  Counts-le _ _ no_one = omega arith
  Counts-le (x ∷ xs) _ (hit p c) = let h = Counts-le xs _ c in omega (arith, h)
  Counts-le (x ∷ xs) n (miss p c) = let h = Counts-le xs n c in omega (arith, h)

module _ {World Handle Real : Type 0} (ops : InferenceBackend World Handle Real) (w : World) where
  -- a registration that can serve
  pub record IsHealthy (r : Registration Handle) : Type 0 where
    pub available : r.available ≡ true
    pub handle : Handle
    pub backend : r.backend ≡ some handle
    pub healthy : ops.healthy handle w ≡ true

  available_count-Counts :
      (rs : List (Registration Handle)) → Counts (λ r. r.available ≡ true) rs (available_count rs)
  unfolding available_count
  available_count-Counts [] = no_one
  available_count-Counts (r ∷ rs) = go _ refl (available_count-Counts rs)
    where
      go :
          (available : Bool)
          → r.available ≡ available
          → Counts (λ r. r.available ≡ true) rs (available_count rs)
          → Counts (λ r. r.available ≡ true) (r ∷ rs) (available_count (r ∷ rs))
      go true e c =
          let same : available_count (r ∷ rs) ≡ suc (available_count rs) = rw e refl in
          subst (Counts (λ r. r.available ≡ true) (r ∷ rs)) (sym same) (hit e c)
      go false e c =
          let same : available_count (r ∷ rs) ≡ available_count rs = rw e refl in
          subst (Counts (λ r. r.available ≡ true) (r ∷ rs)) (sym same) (miss (λ h. cc (e, h)) c)

  healthy_count-Counts :
      (rs : List (Registration Handle)) → Counts IsHealthy rs (healthy_count ops rs w)
  unfolding healthy_count
  healthy_count-Counts [] = no_one
  healthy_count-Counts (r ∷ rs) = go r.backend refl (healthy_count-Counts rs)
    where
      rest : ℕ
      rest = healthy_count ops rs w

      busy :
          (h : Handle) (available healthy : Bool)
          → r.backend ≡ some h
          → r.available ≡ available
          → ops.healthy h w ≡ healthy
          → Counts IsHealthy rs rest
          → Counts IsHealthy (r ∷ rs) (if available && healthy then suc rest else rest)
      busy h true true b e k c =
          hit (record { available = e; handle = h; backend = b; healthy = k }) c
      busy h false healthy b e k c = miss (λ i. cc (e, i.available)) c
      busy h true false b e k c =
          miss
            (λ i. let same : some h ≡ some i.handle = sym b ∙ i.backend in cc (same, k, i.healthy))
            c

      go :
          (b : Option Handle)
          → r.backend ≡ b
          → Counts IsHealthy rs rest
          → Counts IsHealthy (r ∷ rs) (healthy_count ops (r ∷ rs) w)
      go none e c =
          let same : healthy_count ops (r ∷ rs) w ≡ rest = rw e refl in
          subst (Counts IsHealthy (r ∷ rs)) (sym same) (miss (λ h. cc (e, h.backend)) c)
      go (some h) e c =
          let same : healthy_count ops (r ∷ rs) w
              ≡ (if r.available && ops.healthy h w then suc rest else rest) =
            rw e refl in
          subst (Counts IsHealthy (r ∷ rs)) (sym same) (busy h _ _ e refl refl c)

  -- What the response to a health check says: with some healthy ones, the status and the document.
  pub record Reported {J : Type 0} (json : Json J Real) (rs : List (Registration Handle))
      (t : Response) : Type 0 where
    pub available : ℕ
    pub healthy : ℕ
    pub word : Bytes
    pub serving : Bool
    pub counts_available : Counts (λ r. r.available ≡ true) rs available
    pub counts_healthy : Counts IsHealthy rs healthy
    pub verdict : Verdict healthy (length rs) word t.status_code serving
    pub body :
        t.body
        ≡ json.dump (
            json.object (
              (codes "status", json.text word)
              ∷ (codes "serving", json.flag serving)
              ∷ (
                codes "backends",
                json.object (
                    (codes "configured", json.count (length rs))
                    ∷ (codes "available", json.count available)
                    ∷ (codes "healthy", json.count healthy)
                    ∷ []),
              )
              ∷ []))

  -- To a GET request for its health the server answers with how many registrations it has, how many
  -- of them are available and how many can serve, which are the available ones with a healthy
  -- backend. It says "healthy" with status 200 when all of them can serve and there is one, "degraded"
  -- with status 200 when some but not all can, and "unavailable" with status 503 when none can.
  pub handle_health-Reported :
      {J : Type 0} (json : Json J Real) (registry : Option (ModelRegistry Handle))
      (request : Request) (response : Response)
      → request.method ≡ get
      → Reported json
          (registrations_of registry)
          (handle_health json ops registry w request response)
  unfolding handle_health health_body set_content_type add_header
  handle_health-Reported json registry request response h = go _ _ refl refl
    where
      rs : List (Registration Handle)
      rs = registrations_of registry

      n : ℕ
      n = healthy_count ops rs w

      c : Counts IsHealthy rs n
      c = healthy_count-Counts rs

      answer : Response
      answer = handle_health json ops registry w request response

      go :
          (serving less : Bool)
          → ltb 0 n ≡ serving
          → ltb n (length rs) ≡ less
          → Reported json rs answer
      go false less e k =
          rw (h, e)
            (record {
              available = available_count rs;
              healthy = n;
              word = codes "unavailable";
              serving = false;
              counts_available = available_count-Counts rs;
              counts_healthy = c;
              verdict = none_healthy (ground (arith, e));
              body = rw (health_body, e) refl;
            })
      go true true e k =
          rw (h, e)
            (record {
              available = available_count rs;
              healthy = n;
              word = codes "degraded";
              serving = true;
              counts_available = available_count-Counts rs;
              counts_healthy = c;
              verdict = some_healthy (ground (arith, k)) (ground (arith, e));
              body = rw (health_body, e, k) refl;
            })
      go true false e k =
          rw (h, e)
            (record {
              available = available_count rs;
              healthy = n;
              word = codes "healthy";
              serving = true;
              counts_available = available_count-Counts rs;
              counts_healthy = c;
              verdict = all_healthy (ground (arith, k, Counts-le rs n c)) (ground (arith, e));
              body = rw (health_body, e, k) refl;
            })
