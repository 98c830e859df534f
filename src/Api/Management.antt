-- ===== src/Api/Management.antt =====
-- src/api/ManagementController.h and ManagementController.cc. The registry and the metrics may be null.
pub mod Health
use my_tiny_network_library.Base.{
  ℕ, Bool, true, false, ◌&&◌, List, [], ◌∷◌, Option, none, some, if◌then◌else◌, ltb, Bytes, codes,
  length, map,
}
use my_tiny_network_library.Http.Request.{Request, Method, get}
use my_tiny_network_library.Http.Response.{
  Response, ok, method_not_allowed, service_unavailable, add_header, set_content_type,
}
use my_tiny_network_library.Inference.Types.{InferenceBackend, backend_type_name}
use my_tiny_network_library.Inference.Registry.{
  ModelRegistry, Registration, available_count, healthy_count,
}
use my_tiny_network_library.Inference.Metrics.{InferenceMetrics}
use my_tiny_network_library.Inference.Metrics.Render.{render_prometheus}
use my_tiny_network_library.Api.Json.{Json, error_object}

abbrev pub is_get : Method → Bool
is_get get = true
is_get _ = false

abbrev pub json_type : Bytes
json_type = codes "application/json; charset=utf-8"

-- the registrations of a registry that may be null
abbrev pub registrations_of :
    {Handle : Type 0} → Option (ModelRegistry Handle) → List (Registration Handle)
registrations_of none = []
registrations_of (some m) = m.registrations

abbrev default_of : {Handle : Type 0} → Option (ModelRegistry Handle) → Bytes
default_of none = []
default_of (some m) = m.default_model

module _ {J Real : Type 0} (json : Json J Real) where
  -- the answer of `requireGet` to another method
  unfoldable pub get_required : Response → Response
  get_required response =
      record (add_header (codes "Allow") (codes "GET") (set_content_type json_type response)) {
        status_code = method_not_allowed;
        status_message = codes "Method Not Allowed";
        body = json.dump (
            json.object (
              (codes "success", json.flag false)
              ∷ (
                codes "error",
                error_object json (codes "METHOD_NOT_ALLOWED") (codes "GET method is required"),
              )
              ∷ []));
      }

  -- `if (!requireGet(request, response)) return;` and what follows
  abbrev pub on_get : Request → (Response → Response) → Response → Response
  on_get request rest response =
      if is_get request.method then rest response else get_required response

  unfoldable pub health_body : ℕ → ℕ → ℕ → Bytes
  health_body configured available healthy =
      let serving = ltb 0 healthy in
      let degraded = serving && ltb healthy configured in
      json.dump (
        json.object (
          (
            codes "status",
            json.text (
                if serving
                then (if degraded then codes "degraded" else codes "healthy")
                else codes "unavailable"),
          )
          ∷ (codes "serving", json.flag serving)
          ∷ (
            codes "backends",
            json.object (
                (codes "configured", json.count configured)
                ∷ (codes "available", json.count available)
                ∷ (codes "healthy", json.count healthy)
                ∷ []),
          )
          ∷ []))

module _ {J World Handle Real : Type 0} (json : Json J Real)
    (ops : InferenceBackend World Handle Real) (registry : Option (ModelRegistry Handle)) where
  unfoldable pub handle_health : World → Request → Response → Response
  handle_health w request response =
      let rs = registrations_of registry in
      let healthy = healthy_count ops rs w in
      let serving = ltb 0 healthy in
      on_get json request
        (λ r. record (set_content_type json_type r) {
          status_code = (if serving then ok else service_unavailable);
          status_message = (if serving then codes "OK" else codes "Service Unavailable");
          body = health_body json (length rs) (available_count rs) healthy;
        })
        response

  -- is the backend there, and healthy?
  abbrev pub answers : Option Handle → World → Bool
  answers none w = false
  answers (some h) w = ops.healthy h w

  unfoldable pub model_object : World → Registration Handle → J
  model_object w r = json.object (
      (codes "name", json.text r.config.name)
      ∷ (codes "version", json.text r.config.version)
      ∷ (codes "backend", json.text (backend_type_name r.config.backend))
      ∷ (codes "priority", json.integer r.priority)
      ∷ (codes "available", json.flag r.available)
      ∷ (codes "healthy", json.flag (r.available && answers r.backend w))
      ∷ [])

  unfoldable pub handle_models : World → Request → Response → Response
  handle_models w request response =
      on_get json request
        (λ r. record (set_content_type json_type r) {
          status_code = ok;
          status_message = codes "OK";
          body = json.dump (
              json.object (
                (codes "default_model", json.text (default_of registry))
                ∷ (codes "models", json.array (map (model_object w) (registrations_of registry)))
                ∷ []));
        })
        response

module _ {J Real : Type 0} (json : Json J Real) (real_text : Real → Bytes)
    (bounds : List Real) where
  abbrev metrics_text : Option (InferenceMetrics Real) → Bytes
  metrics_text none = []
  metrics_text (some m) = render_prometheus real_text bounds m

  unfoldable pub handle_metrics : Option (InferenceMetrics Real) → Request → Response → Response
  handle_metrics metrics request response =
      on_get json request
        (λ r. record (set_content_type (codes "text/plain; version=0.0.4; charset=utf-8") r) {
          status_code = ok;
          status_message = codes "OK";
          body = metrics_text metrics;
        })
        response
