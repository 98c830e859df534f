-- ===== src/Inference/Metrics.antt =====
-- src/inference/InferenceMetrics.h and InferenceMetrics.cc: the counters and histograms. A `std::map`
-- is a list of keys with values, in the order of first use. `Real` stands for `double`. The text that
-- `renderPrometheus` writes is in Render.
pub mod Buckets
pub mod Labels
pub mod Render
use my_tiny_network_library.Base.{
  ℕ, add_size, Bool, true, List, [], ◌∷◌, ◌++◌, if◌then◌else◌, ◌==◌, ◌||◌, Bytes, codes, equal,
  replicate, length,
}
use my_tiny_network_library.Inference.Types.{
  BackendType, backend_type_name, InferenceResult, MetricsOps,
}

-- the text that stands for one character
unfoldable pub escape_char : ℕ → Bytes
escape_char ch =
    let rest = if ch == b'\n' then codes "\\n" else ch ∷ [] in
    if ch == b'\\' || ch == b'"' then b'\\' ∷ rest else rest

unfoldable pub escape_label : Bytes → Bytes
escape_label [] = []
escape_label (ch ∷ value) = escape_char ch ++ escape_label value

unfoldable pub labels : Bytes → Bytes → Bytes → Bytes
labels model backend status =
    codes "model=\""
    ++ (escape_label model
        ++ (codes "\",backend=\""
            ++ (escape_label backend
                ++ (codes "\",status=\"" ++ (escape_label status ++ codes "\"")))))

pub record Histogram (Real : Type 0) : Type 0 where
  pub buckets : List ℕ
  pub count : ℕ
  pub sum : Real

pub record InferenceMetrics (Real : Type 0) : Type 0 where
  pub requests : List (Bytes × ℕ)
  pub rejections : List (Bytes × ℕ)
  pub total_duration : List (Bytes × Histogram Real)
  pub queue_duration : List (Bytes × Histogram Real)
  pub backend_duration : List (Bytes × Histogram Real)
  pub queue_depth : ℕ
  pub queue_capacity : ℕ

-- `f(map[key])`, where a missing key begins with a default
unfoldable pub update : {V : Type 0} → V → (V → V) → Bytes → List (Bytes × V) → List (Bytes × V)
update start f key [] = (key, f start) ∷ []
update start f key ((name, v) ∷ rest) =
    let others = update start f key rest in
    if equal name key then (name, f v) ∷ rest else (name, v) ∷ others

unfoldable pub increment : Bytes → List (Bytes × ℕ) → List (Bytes × ℕ)
increment key m = update 0 (λ n. add_size n 1) key m

module _ {Real : Type 0} where
  unfoldable pub record_validation_failure : Bytes → InferenceMetrics Real → InferenceMetrics Real
  record_validation_failure reason m = record m {
    requests =
        increment (labels (codes "unknown") (codes "unknown") (codes "invalid_request")) m.requests;
    rejections = increment reason m.rejections;
  }

  unfoldable pub record_submission_failure :
      Bytes → BackendType → Bytes → InferenceMetrics Real → InferenceMetrics Real
  record_submission_failure model backend reason m = record m {
    requests = increment (labels model (backend_type_name backend) (codes "rejected")) m.requests;
    rejections = increment reason m.rejections;
  }

  unfoldable pub set_queue_depth : ℕ → InferenceMetrics Real → InferenceMetrics Real
  set_queue_depth depth m = record m { queue_depth = depth }

  unfoldable pub set_queue_capacity : ℕ → InferenceMetrics Real → InferenceMetrics Real
  set_queue_capacity capacity m = record m { queue_capacity = capacity }

module _ {Real : Type 0} (zero : Real) (add : Real → Real → Real) (le : Real → Real → Bool)
    (thousandth : Real → Real) (bounds : List Real) where
  -- the loop over `buckets_`, along the counts
  unfoldable pub observe_buckets : Real → List Real → List ℕ → List ℕ
  observe_buckets seconds [] counts = counts
  observe_buckets seconds (b ∷ bs) [] = []
  observe_buckets seconds (b ∷ bs) (n ∷ counts) =
      let rest = observe_buckets seconds bs counts in
      (if le seconds b then add_size n 1 else n) ∷ rest

  abbrev sized : List ℕ → List ℕ
  sized [] = replicate (length bounds) 0
  sized (n ∷ counts) = n ∷ counts

  unfoldable pub observe_one : Real → Histogram Real → Histogram Real
  observe_one seconds h = record {
    buckets = observe_buckets seconds bounds (sized h.buckets);
    count = add_size h.count 1;
    sum = add h.sum seconds;
  }

  unfoldable pub observe :
      Bytes → Real → List (Bytes × Histogram Real) → List (Bytes × Histogram Real)
  observe key seconds m =
      update (record { buckets = []; count = 0; sum = zero }) (observe_one seconds) key m

  unfoldable pub record_completion :
      InferenceResult Real → InferenceMetrics Real → InferenceMetrics Real
  record_completion result m =
      let backend = backend_type_name result.backend in
      let status = if result.success then codes "success" else codes "error" in
      let durations = labels result.model_name backend (codes "all") in
      record m {
        requests = increment (labels result.model_name backend status) m.requests;
        total_duration = observe durations (thousandth result.latency.total_ms) m.total_duration;
        queue_duration = observe durations (thousandth result.latency.queue_ms) m.queue_duration;
        backend_duration =
            observe durations (thousandth result.latency.inference_ms) m.backend_duration;
      }

  -- what the scheduler uses
  unfoldable pub metrics_ops : MetricsOps (InferenceMetrics Real) Real
  metrics_ops = record {
    set_queue_capacity = set_queue_capacity;
    set_queue_depth = set_queue_depth;
    record_completion = record_completion;
  }
