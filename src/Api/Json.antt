-- ===== src/Api/Json.antt =====
-- src/api/InferenceJson.h and InferenceJson.cc: the documents of the answers. What nlohmann::json does
-- is an argument.
use my_tiny_network_library.Base.{
  ℕ, ℤ, Bool, false, List, [], ◌∷◌, if◌then◌else◌, Bytes, codes, map,
}
use my_tiny_network_library.Inference.Types.{Detection, InferenceResult, backend_type_name}

-- the values that a document is made of, and its text
pub record Json (J Real : Type 0) : Type 0 where
  pub text : Bytes → J
  pub flag : Bool → J
  pub count : ℕ → J
  pub integer : ℤ → J
  pub real : Real → J
  pub object : List (Bytes × J) → J
  pub array : List J → J
  pub dump : J → Bytes

module _ {J Real : Type 0} (json : Json J Real) where
  abbrev pub error_object : Bytes → Bytes → J
  error_object code message =
      json.object ((codes "code", json.text code) ∷ (codes "message", json.text message) ∷ [])

  unfoldable pub serialize_api_error : Bytes → Bytes → Bytes → Bytes
  serialize_api_error request_id code message = json.dump (
      json.object (
        (codes "success", json.flag false)
        ∷ (codes "request_id", json.text request_id)
        ∷ (codes "error", error_object code message)
        ∷ []))

  unfoldable pub detection_object : Detection Real → J
  detection_object d = json.object (
      (codes "class_id", json.integer d.class_id)
      ∷ (codes "label", json.text d.label)
      ∷ (codes "score", json.real d.confidence)
      ∷ (
        codes "bbox",
        json.array (json.real d.x1 ∷ json.real d.y1 ∷ json.real d.x2 ∷ json.real d.y2 ∷ []),
      )
      ∷ [])

  -- the entry that a failure has beside the others
  abbrev pub error_entry : InferenceResult Real → List (Bytes × J)
  error_entry r =
      if r.success then [] else (codes "error", error_object r.error_code r.error_message) ∷ []

  unfoldable pub serialize_inference_result : InferenceResult Real → Bytes
  serialize_inference_result r = json.dump (
      json.object (
        (codes "success", json.flag r.success)
        ∷ (codes "request_id", json.text r.request_id)
        ∷ (codes "model", json.text r.model_name)
        ∷ (codes "model_version", json.text r.model_version)
        ∷ (codes "backend", json.text (backend_type_name r.backend))
        ∷ (
          codes "image",
          json.object (
              (codes "width", json.integer r.image_width)
              ∷ (codes "height", json.integer r.image_height)
              ∷ []),
        )
        ∷ (
          codes "latency_ms",
          json.object (
              (codes "queue", json.real r.latency.queue_ms)
              ∷ (codes "preprocess", json.real r.latency.preprocess_ms)
              ∷ (codes "inference", json.real r.latency.inference_ms)
              ∷ (codes "postprocess", json.real r.latency.postprocess_ms)
              ∷ (codes "total", json.real r.latency.total_ms)
              ∷ []),
        )
        ∷ (codes "detections", json.array (map detection_object r.detections))
        ∷ error_entry r))
