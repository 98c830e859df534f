-- ===== src/Api/Controller/Handle.antt =====
-- `handle`, `handleAsync` and the answer that a worker's result becomes.
use my_tiny_network_library.Base.{
  ℕ, add_size, Bool, true, false, not, List, [], ◌∷◌, ◌++◌, Option, none, some, if◌then◌else◌,
  Bytes, codes, equal,
}
use my_tiny_network_library.Buffer.{IoResult}
use my_tiny_network_library.Http.Request.{Request}
use my_tiny_network_library.Http.Response.{Response, not_implemented, service_unavailable}
use my_tiny_network_library.Http.Response
use my_tiny_network_library.Tcp.Connection.{Connection, Effect, is_connected, stop_read}
use my_tiny_network_library.Inference.Types.{InferenceRequest, InferenceResult, MetricsOps}
use my_tiny_network_library.Inference.Scheduler.{Scheduler, SubmitResult, accepted, submit}
use my_tiny_network_library.Api.Json.{Json}
use my_tiny_network_library.Api.Controller.{
  Noted, validation_failure, submission_failure, Floated, Built, built, rejected, next_request_id,
  build_request, blank, set_json_error, reject, refusal, refuse_submit, completed,
  send_response_and_close, Handled,
}

module _ {Handle Real Metrics : Type 0} where
  -- `if (metrics_) metrics_->…`
  abbrev pub note : Noted → Handled Handle Real Metrics → Handled Handle Real Metrics
  note noted s = record s { noted = if s.has_metrics then s.noted ++ noted ∷ [] else s.noted }

  abbrev pub on_connection :
      (Connection → Connection × List Effect)
      → Handled Handle Real Metrics
      → Handled Handle Real Metrics
  on_connection call s =
      let (connection, effects) = call s.connection in
      record s { connection = connection; effects = s.effects ++ effects }

  -- the request identifiers that were given out
  abbrev pub numbered : Handled Handle Real Metrics → Handled Handle Real Metrics
  numbered s = record s { sequence = add_size s.sequence 1 }

module _ {J Handle Real Metrics : Type 0} (json : Json J Real) where
  abbrev pub handle_built :
      Bytes
      → Built Real
      → Response
      → Handled Handle Real Metrics
      → Response × Handled Handle Real Metrics
  handle_built request_id (rejected code message) response s =
      (reject json request_id code message response, note (validation_failure code) s)
  handle_built request_id (built r) response s = (
    set_json_error json not_implemented (codes "Not Implemented") request_id
        (codes "BACKEND_NOT_IMPLEMENTED")
        (codes "the inference API is valid, but no inference backend is connected yet") response,
    s,
  )

module _ {J Handle Real Metrics : Type 0} (json : Json J Real) (strtof : Bytes → Floated Real)
    (is_negative above_one : Real → Bool) (quarter : Real) where
  -- the request of `handle` and `handleAsync`
  abbrev pub read_request : ℕ → Request → Handled Handle Real Metrics → Built Real
  read_request now http s =
      build_request strtof is_negative above_one http
        (blank quarter (next_request_id now s.sequence))

  unfoldable pub handle :
      ℕ → Request → Response → Handled Handle Real Metrics → Response × Handled Handle Real Metrics
  handle now http response s =
      handle_built json (next_request_id now s.sequence) (read_request now http s) response
        (numbered s)

module _ {J Real : Type 0} (json : Json J Real) where
  -- the answer where there is no scheduler
  abbrev pub unscheduled : Bytes → Response
  unscheduled request_id =
      set_json_error json service_unavailable (codes "Service Unavailable") request_id
        (codes "SCHEDULER_UNAVAILABLE") (codes "inference scheduler is not running")
        (Response.init true)

module _ {J Handle Real Metrics : Type 0} (json : Json J Real) (sink : MetricsOps Metrics Real)
    (write : ℕ → Bytes → IoResult ℕ) where
  -- behind `submit`
  abbrev pub after_submit :
      InferenceRequest Real
      → SubmitResult
      → Handled Handle Real Metrics
      → Handled Handle Real Metrics
  after_submit r accepted s = on_connection (stop_read true) s
  after_submit r result s =
      on_connection (send_response_and_close write true (refuse_submit json result r.request_id))
        (note (submission_failure r.model_name r.backend (refusal result).1) s)

  abbrev pub submit_to :
      InferenceRequest Real
      → ℕ
      → ℕ
      → Option (Scheduler Handle Real ℕ Metrics)
      → Handled Handle Real Metrics
      → Handled Handle Real Metrics
  submit_to r id time none s =
      on_connection (send_response_and_close write true (unscheduled json r.request_id))
        (note (submission_failure r.model_name r.backend (codes "scheduler_unavailable")) s)
  submit_to r id time (some scheduler) s =
      let (result, scheduler') = submit sink r (some id) time scheduler in
      after_submit r result (record s { scheduler = some scheduler' })

  abbrev pub async_built :
      Bytes → Built Real → ℕ → ℕ → Handled Handle Real Metrics → Handled Handle Real Metrics
  async_built request_id (rejected code message) id time s =
      on_connection
        (send_response_and_close write true
          (reject json request_id code message (Response.init true)))
        s
  async_built request_id (built r) id time s = submit_to r id time s.scheduler s

  -- Whether the request is taken. `id` is the number of the connection, and `time` the scheduler's.
  unfoldable pub handle_async :
      (Bytes → Floated Real)
      → (Real → Bool)
      → (Real → Bool)
      → Real
      → ℕ
      → ℕ
      → ℕ
      → Request
      → Handled Handle Real Metrics
      → Bool × Handled Handle Real Metrics
  handle_async strtof is_negative above_one quarter now time id http s =
      let request = read_request json strtof is_negative above_one quarter now http s in
      let request_id = next_request_id now s.sequence in
      if not (equal http.path (codes "/v1/infer"))
      then (false, s)
      else (true, async_built request_id request id time (numbered s))

module _ {J Real : Type 0} (json : Json J Real) (write : ℕ → Bytes → IoResult ℕ) where
  -- The functor that the loop of the connection runs for a result, if the connection still is.
  unfoldable pub deliver : InferenceResult Real → Connection → Connection × List Effect
  deliver result c =
      let answered = send_response_and_close write true (completed json result) c in
      if is_connected c.state then answered else (c, [])
