-- ===== src/Inference/Mock.antt =====
-- src/inference/MockBackend.h and MockBackend.cc: the backend that answers with one fixed object.
-- The numbers of the source are `real digits places`; the delay and the clock are the argument
-- `elapsed`.
use my_tiny_network_library.Base.{ℕ, pos, Bool, true, false, [], ◌∷◌, if◌then◌else◌, Bytes, codes}
use my_tiny_network_library.Inference.Types.{
  auto, ModelConfig, InferenceRequest, InferenceResult, InferenceBackend,
}

pub record MockBackend : Type 0 where
  pub loaded : Bool

unfoldable pub load : ModelConfig → Bytes → MockBackend → Bool × Bytes × MockBackend
load config error b = (true, error, record b { loaded = true })

unfoldable pub warmup : Bytes → MockBackend → Bool × Bytes × MockBackend
warmup error b =
    if b.loaded then (true, error, b) else (false, codes "mock backend is not loaded", b)

module _ {Real : Type 0} (real : ℕ → ℕ → Real) (elapsed : Real) where
  -- the result before the test of `loaded_`
  unfoldable pub empty_result : InferenceRequest Real → InferenceResult Real
  empty_result request = record {
    success = false;
    request_id = request.request_id;
    model_name = request.model_name;
    model_version = codes "mock-1";
    backend = auto;
    image_width = pos 0;
    image_height = pos 0;
    detections = [];
    latency = record {
      queue_ms = real 0 0;
      preprocess_ms = real 0 0;
      inference_ms = real 0 0;
      postprocess_ms = real 0 0;
      total_ms = real 0 0;
    };
    error_code = [];
    error_message = [];
  }

  unfoldable pub infer : InferenceRequest Real → MockBackend → InferenceResult Real × MockBackend
  infer request b =
      let result = empty_result request in
      if b.loaded
      then (
        record result {
          success = true;
          image_width = pos 640;
          image_height = pos 480;
          detections =
              record {
                class_id = pos 0;
                label = codes "mock-object";
                confidence = real 90 2;
                x1 = real 64 0;
                y1 = real 48 0;
                x2 = real 320 0;
                y2 = real 240 0;
              }
              ∷ [];
          latency = record result.latency { inference_ms = elapsed };
        },
        b,
      )
      else (
        record result {
          error_code = codes "BACKEND_NOT_READY";
          error_message = codes "mock backend is not loaded";
        },
        b,
      )

  -- one such backend behind every handle
  unfoldable pub mock : {Handle : Type 0} → InferenceBackend MockBackend Handle Real
  mock = record {
    load = λ h. load;
    warmup = λ h. warmup;
    infer = λ h. infer;
    healthy = λ h b. b.loaded;
  }
