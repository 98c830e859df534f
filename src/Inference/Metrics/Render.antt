-- ===== src/Inference/Metrics/Render.antt =====
-- `renderPrometheus`: the text of the metrics. How a double is written with ten digits is an argument.
-- The C++ maps are in the order of their keys; here it is the order of first use.
use my_tiny_network_library.Base.{ℕ, List, [], ◌∷◌, ◌++◌, Bytes, codes, decimal}
use my_tiny_network_library.Inference.Metrics.{Histogram, InferenceMetrics, escape_label}

-- one text behind the other
abbrev lines : List Bytes → Bytes
lines [] = []
lines (text ∷ texts) = text ++ lines texts

abbrev newline : Bytes
newline = 10 ∷ []

-- the lines on what a metric is
abbrev pub head_lines : Bytes → Bytes → Bytes → Bytes
head_lines name help kind = lines (
    codes "# HELP "
    ∷ name
    ∷ codes " "
    ∷ help
    ∷ newline
    ∷ codes "# TYPE "
    ∷ name
    ∷ codes " "
    ∷ kind
    ∷ newline
    ∷ [])

-- a value with its labels, and one without
abbrev sample : Bytes → Bytes → Bytes → Bytes
sample name labels value = lines (name ∷ codes "{" ∷ labels ∷ codes "} " ∷ value ∷ newline ∷ [])

abbrev gauge : Bytes → Bytes → ℕ → Bytes
gauge name help n =
    head_lines name help (codes "gauge") ++ lines (name ∷ codes " " ∷ decimal n ∷ newline ∷ [])

unfoldable pub render_requests : List (Bytes × ℕ) → Bytes
render_requests [] = []
render_requests ((labels, n) ∷ rest) =
    sample (codes "mywebserver_inference_requests_total") labels (decimal n) ++ render_requests rest

unfoldable pub render_rejections : List (Bytes × ℕ) → Bytes
render_rejections [] = []
render_rejections ((reason, n) ∷ rest) =
    sample (codes "mywebserver_inference_rejections_total")
      (lines (codes "reason=\"" ∷ escape_label reason ∷ codes "\"" ∷ [])) (decimal n)
    ++ render_rejections rest

module _ {Real : Type 0} (real_text : Real → Bytes) (bounds : List Real) where
  -- the loop over the buckets; every histogram has one for each bound
  unfoldable pub render_buckets : Bytes → Bytes → List Real → List ℕ → Bytes
  render_buckets name labels [] counts = []
  render_buckets name labels (b ∷ bs) [] = []
  render_buckets name labels (b ∷ bs) (n ∷ counts) =
      sample (name ++ codes "_bucket")
        (lines (labels ∷ codes ",le=\"" ∷ real_text b ∷ codes "\"" ∷ [])) (decimal n)
      ++ render_buckets name labels bs counts

  unfoldable pub render_series : Bytes → List (Bytes × Histogram Real) → Bytes
  render_series name [] = []
  render_series name ((labels, h) ∷ rest) = lines (
      render_buckets name labels bounds h.buckets
      ∷ sample (name ++ codes "_bucket") (labels ++ codes ",le=\"+Inf\"") (decimal h.count)
      ∷ sample (name ++ codes "_sum") labels (real_text h.sum)
      ∷ sample (name ++ codes "_count") labels (decimal h.count)
      ∷ render_series name rest
      ∷ [])

  unfoldable pub render_histogram : Bytes → Bytes → List (Bytes × Histogram Real) → Bytes
  render_histogram name help values =
      head_lines name help (codes "histogram") ++ render_series name values

  unfoldable pub render_prometheus : InferenceMetrics Real → Bytes
  render_prometheus m = lines (
      head_lines (codes "mywebserver_inference_requests_total")
        (codes "Inference requests by final outcome.") (codes "counter")
      ∷ render_requests m.requests
      ∷ head_lines (codes "mywebserver_inference_rejections_total")
          (codes "Requests rejected before inference.") (codes "counter")
      ∷ render_rejections m.rejections
      ∷ gauge (codes "mywebserver_inference_queue_depth") (codes "Current queued inference tasks.")
          m.queue_depth
      ∷ gauge (codes "mywebserver_inference_queue_capacity")
          (codes "Maximum queued inference tasks.") m.queue_capacity
      ∷ render_histogram (codes "mywebserver_inference_request_duration_seconds")
          (codes "End-to-end inference request duration in seconds.") m.total_duration
      ∷ render_histogram (codes "mywebserver_inference_queue_duration_seconds")
          (codes "Time spent waiting in the scheduler queue in seconds.") m.queue_duration
      ∷ render_histogram (codes "mywebserver_inference_backend_duration_seconds")
          (codes "Model execution duration in seconds.") m.backend_duration
      ∷ [])
