-- ===== src/Main/Routes/Found.antt =====
-- Which paths are routes.
use my_tiny_network_library.Base.{
  ℕ, ◌≡◌, ◌≢◌, ◌↔◌, refl, Bool, true, false, List, [], ◌∷◌, if◌then◌else◌, ltb, Bytes, codes, equal,
  equal_iff, All,
}
use my_tiny_network_library.Http.Request.{Request, UploadedFile}
use my_tiny_network_library.Http.Response.{
  Response, unknown, bad_request, method_not_allowed, unsupported_media_type, not_found, add_header,
}
use my_tiny_network_library.Inference.Registry.{healthy_count}
use my_tiny_network_library.Api.Json.{Json}
use my_tiny_network_library.Api.Controller.{
  Handled, next_request_id, Built, built, rejected, set_json_error, reject,
}
use my_tiny_network_library.Api.Controller.Handle.{handle, handle_built, read_request, numbered}
use my_tiny_network_library.Api.Management.{
  is_get, get_required, handle_health, handle_models, handle_metrics, registrations_of,
}
use my_tiny_network_library.Main.Routes.{FileAnswers, home, icon, upload, missing, Site, on_request}

abbrev pub routes : List Bytes
routes =
    codes "/"
    ∷ codes "/favicon.ico"
    ∷ codes "/v1/infer"
    ∷ codes "/healthz"
    ∷ codes "/v1/models"
    ∷ codes "/metrics"
    ∷ codes "/upload"
    ∷ []

-- the status was set, and not to 404
abbrev Found : Response → Type 0
Found r = (r.status_code ≢ unknown) × (r.status_code ≢ not_found)

home-Found : (file : FileAnswers) (r : Response) → Found (home file r)
unfolding home
home-Found file r = (λ e. cc e, λ e. cc e)

icon-Found : (r : Response) → Found (icon r)
unfolding icon
icon-Found r = (λ e. cc e, λ e. cc e)

upload-Found : (files : List UploadedFile) (r : Response) → Found (upload files r)
unfolding upload
upload-Found [] r = (λ e. cc e, λ e. cc e)
upload-Found (file ∷ files) r = (λ e. cc e, λ e. cc e)

module _ {J Real : Type 0} (json : Json J Real) where
  get_required-Found : (r : Response) → Found (get_required json r)
  unfolding get_required
  get_required-Found r = (λ e. cc e, λ e. cc e)

  reject-Found : (id code message : Bytes) (r : Response) → Found (reject json id code message r)
  unfolding reject set_json_error
  reject-Found id code message r =
      go (equal code (codes "METHOD_NOT_ALLOWED")) (equal code (codes "UNSUPPORTED_IMAGE_TYPE"))
    where
      go :
          (method image : Bool)
          → Found (
              if method
              then set_json_error json method_not_allowed
                  (codes "Method Not Allowed")
                  id
                  code
                  message
                  (add_header (codes "Allow") (codes "POST") r)
              else if image
              then set_json_error json unsupported_media_type
                  (codes "Unsupported Media Type")
                  id
                  code
                  message
                  r
              else set_json_error json bad_request (codes "Bad Request") id code message r)
      go true image = (λ e. cc e, λ e. cc e)
      go false true = (λ e. cc e, λ e. cc e)
      go false false = (λ e. cc e, λ e. cc e)

  handle_built-Found :
      {Handle Metrics : Type 0} (id : Bytes) (b : Built Real) (r : Response)
      (s : Handled Handle Real Metrics)
      → Found (handle_built json id b r s).0
  unfolding set_json_error
  handle_built-Found id (rejected code message) r s = reject-Found id code message r
  handle_built-Found id (built request) r s = (λ e. cc e, λ e. cc e)

module _ {J World Handle Real Metrics : Type 0} (site : Site J World Handle Real)
    (file : FileAnswers) (now : ℕ) (w : World) (request : Request) (r : Response)
    (s : Handled Handle Real Metrics) where
  infer-Found :
      Found
        (handle site.json site.strtof site.is_negative site.above_one site.quarter now request r
          s).0
  unfolding handle
  infer-Found =
      handle_built-Found site.json (next_request_id now s.sequence)
        (read_request site.json site.strtof site.is_negative site.above_one site.quarter now request
          s)
        r (numbered s)

  health-Found : Found (handle_health site.json site.ops site.registry w request r)
  unfolding handle_health
  health-Found = go _ _ refl refl
    where
      go :
          (b serving : Bool)
          → is_get request.method ≡ b
          → ltb 0 (healthy_count site.ops (registrations_of site.registry) w) ≡ serving
          → Found (handle_health site.json site.ops site.registry w request r)
      go true true e k = rw (e, k) (λ e. cc e, λ e. cc e)
      go true false e k = rw (e, k) (λ e. cc e, λ e. cc e)
      go false serving e k = rw e (get_required-Found site.json r)

  models-Found : Found (handle_models site.json site.ops site.registry w request r)
  unfolding handle_models
  models-Found = go _ refl
    where
      go :
          (b : Bool)
          → is_get request.method ≡ b
          → Found (handle_models site.json site.ops site.registry w request r)
      go true e = rw e (λ e. cc e, λ e. cc e)
      go false e = rw e (get_required-Found site.json r)

  metrics-Found : Found (handle_metrics site.json site.real_text site.bounds site.metrics request r)
  unfolding handle_metrics
  metrics-Found = go _ refl
    where
      go :
          (b : Bool)
          → is_get request.method ≡ b
          → Found (handle_metrics site.json site.real_text site.bounds site.metrics request r)
      go true e = rw e (λ e. cc e, λ e. cc e)
      go false e = rw e (get_required-Found site.json r)

  -- a test of the path, and what is answered where it succeeds and where it does not
  unfoldable Matches : List Bytes → Response → Type 0
  Matches paths answer =
      (answer.status_code ≢ unknown)
      × ((answer.status_code ≡ not_found) ↔ All (λ route. request.path ≢ route) paths)

  branch :
      (route : Bytes) (paths : List Bytes)
      (there elsewhere : Response × Handled Handle Real Metrics)
      → Found there.0
      → Matches paths elsewhere.0
      → Matches (route ∷ paths) (if equal request.path route then there else elsewhere).0
  unfolding Matches
  branch route paths there elsewhere f h = go _ refl
    where
      go :
          (b : Bool)
          → equal request.path route ≡ b
          → Matches (route ∷ paths) (if b then there else elsewhere).0
      go true e = (f.0, (λ m. absurd (f.1 m), λ a. absurd (a.0 ((equal_iff _ _).0 e))))
      go false e = (
        h.0,
        (λ m. ((λ same. cc (e, (equal_iff request.path route).1 same)), h.1.0 m), λ a. h.1.1 a.1),
      )

  missing-Matches : Matches [] (missing r)
  unfolding Matches missing
  missing-Matches = ((λ e. cc e), (λ m. tt, λ a. refl))

  on_request-Matches : Matches routes (on_request site file now w request r s).0
  unfolding on_request
  on_request-Matches = branch _ _ _ _ (home-Found file r) (
      branch _ _ _ _ (icon-Found r) (
        branch _ _ _ _ infer-Found (
          branch _ _ _ _ health-Found (
            branch _ _ _ _ models-Found (
              branch _ _ _ _ metrics-Found
                (branch _ _ _ _ (upload-Found request.files r) missing-Matches))))))

  -- Every request that the server answers by `onRequest` gets a status, and it is 404 just where the
  -- path is none of the seven routes.
  pub on_request-routes :
      let answer = (on_request site file now w request r s).0 in
      (answer.status_code ≢ unknown)
      × ((answer.status_code ≡ not_found) ↔ All (λ route. request.path ≢ route) routes)
  unfolding Matches
  on_request-routes = on_request-Matches
