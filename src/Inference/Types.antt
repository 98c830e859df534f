-- ===== src/Inference/Types.antt =====
-- src/inference/InferenceTypes.h and IInferenceBackend.h: the data that a client, the scheduler and
-- the backends exchange. `Real` stands for the source's `float` and `double`.
use my_tiny_network_library.Base.{
  ℕ, ℤ, Bool, true, false, List, [], Option, none, some, if◌then◌else◌, ◌||◌, Bytes, codes, equal,
  is_empty, equal_iff, is_empty_iff, ◌≡◌, arith, ◌↔◌, ◌⊎◌,
}

pub data BackendType : Type 0 where
  auto tensor_flow tensor_rt : BackendType

unfoldable pub backend_type_name : BackendType → Bytes
backend_type_name tensor_flow = codes "tensorflow"
backend_type_name tensor_rt = codes "tensorrt"
backend_type_name auto = codes "auto"

-- `none` where the source returns false
unfoldable pub parse_backend_type : Bytes → Option BackendType
parse_backend_type value =
    if is_empty value || equal value (codes "auto")
    then some auto
    else if equal value (codes "tensorflow")
    then some tensor_flow
    else if equal value (codes "tensorrt")
    then some tensor_rt
    else none

-- `==` of two backend types
unfoldable pub same_backend : BackendType → BackendType → Bool
same_backend auto auto = true
same_backend tensor_flow tensor_flow = true
same_backend tensor_rt tensor_rt = true
same_backend _ _ = false

pub same_backend_iff : (a b : BackendType) → (same_backend a b ≡ true) ↔ (a ≡ b)
unfolding same_backend
same_backend_iff auto auto = ground arith
same_backend_iff auto tensor_flow = ground arith
same_backend_iff auto tensor_rt = ground arith
same_backend_iff tensor_flow auto = ground arith
same_backend_iff tensor_flow tensor_flow = ground arith
same_backend_iff tensor_flow tensor_rt = ground arith
same_backend_iff tensor_rt auto = ground arith
same_backend_iff tensor_rt tensor_flow = ground arith
same_backend_iff tensor_rt tensor_rt = ground arith

-- `parseBackendType` reads back what `backendTypeName` writes, and reads nothing else but the empty
-- text, which stands for "auto".
pub parse_backend_type-backend_type_name :
    (value : Bytes) (backend : BackendType)
    → (parse_backend_type value ≡ some backend)
      ↔ ((value ≡ backend_type_name backend) ⊎ ((value ≡ []) × (backend ≡ auto)))
unfolding parse_backend_type backend_type_name
parse_backend_type-backend_type_name value auto = ground (
  arith,
  equal_iff value (codes "auto"),
  equal_iff value (codes "tensorflow"),
  equal_iff value (codes "tensorrt"),
  is_empty_iff value,
)
parse_backend_type-backend_type_name value tensor_flow = ground (
  arith,
  equal_iff value (codes "auto"),
  equal_iff value (codes "tensorflow"),
  equal_iff value (codes "tensorrt"),
  is_empty_iff value,
)
parse_backend_type-backend_type_name value tensor_rt = ground (
  arith,
  equal_iff value (codes "auto"),
  equal_iff value (codes "tensorflow"),
  equal_iff value (codes "tensorrt"),
  is_empty_iff value,
)

pub record ModelConfig : Type 0 where
  pub name : Bytes
  pub version : Bytes
  pub path : Bytes
  pub backend : BackendType
  pub device_id : ℤ
  pub max_concurrency : ℕ

pub record ImageData : Type 0 where
  pub encoded : Option Bytes
  pub file_name : Bytes
  pub content_type : Bytes

pub record InferenceRequest (Real : Type 0) : Type 0 where
  pub request_id : Bytes
  pub model_name : Bytes
  pub backend : BackendType
  pub confidence_threshold : Real
  pub image : ImageData

pub record Detection (Real : Type 0) : Type 0 where
  pub class_id : ℤ
  pub label : Bytes
  pub confidence : Real
  pub x1 : Real
  pub y1 : Real
  pub x2 : Real
  pub y2 : Real

pub record LatencyInfo (Real : Type 0) : Type 0 where
  pub queue_ms : Real
  pub preprocess_ms : Real
  pub inference_ms : Real
  pub postprocess_ms : Real
  pub total_ms : Real

pub record InferenceResult (Real : Type 0) : Type 0 where
  pub success : Bool
  pub request_id : Bytes
  pub model_name : Bytes
  pub model_version : Bytes
  pub backend : BackendType
  pub image_width : ℤ
  pub image_height : ℤ
  pub detections : List (Detection Real)
  pub latency : LatencyInfo Real
  pub error_code : Bytes
  pub error_message : Bytes

-- The virtual functions of a backend. A `Handle` is a shared pointer to one, and `World` holds the
-- state of all of them, so that two handles may name one object. `load` and `warmup` are handed
-- the text of `*error` and return it.
pub record InferenceBackend (World Handle Real : Type 0) : Type 0 where
  pub load : Handle → ModelConfig → Bytes → World → Bool × Bytes × World
  pub warmup : Handle → Bytes → World → Bool × Bytes × World
  pub infer : Handle → InferenceRequest Real → World → InferenceResult Real × World
  pub healthy : Handle → World → Bool

-- What the scheduler uses of `InferenceMetrics`.
pub record MetricsOps (Metrics Real : Type 0) : Type 0 where
  pub set_queue_capacity : ℕ → Metrics → Metrics
  pub set_queue_depth : ℕ → Metrics → Metrics
  pub record_completion : InferenceResult Real → Metrics → Metrics
