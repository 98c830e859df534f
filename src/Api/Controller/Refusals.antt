-- ===== src/Api/Controller/Refusals.antt =====
-- What a response says about a request that is not run.
use my_tiny_network_library.Base.{
  ℕ, ◌≡◌, ◌≢◌, refl, Bool, true, false, List, [], ◌∷◌, ◌++◌, Option, none, some, Bytes, codes,
  equal, equal_iff,
}
use my_tiny_network_library.Buffer.{IoResult, initial_size, retrieve_all_as_string}
use my_tiny_network_library.Buffer
use my_tiny_network_library.Http.Response.{
  Response, StatusCode, bad_request, method_not_allowed, unsupported_media_type,
  unprocessable_entity, service_unavailable, add_header, set_content_type, append_to_buffer,
}
use my_tiny_network_library.Http.Response
use my_tiny_network_library.Tcp.Connection.{Connection, Effect, send, shutdown, stop_read}
use my_tiny_network_library.Inference.Types.{InferenceRequest, MetricsOps}
use my_tiny_network_library.Inference.Scheduler.{
  Scheduler, Task, SubmitResult, accepted, queue_full, stopped, backend_unavailable,
  model_unavailable, enqueue, submit,
}
use my_tiny_network_library.Api.Json.{Json, serialize_api_error}
use my_tiny_network_library.Api.Controller.{
  Built, built, rejected, set_json_error, reject, refuse_submit, response_text,
  send_response_and_close, Handled,
}

-- what is wrong when `submit` does not take a request: the status, the code and the message
pub data Declined : SubmitResult → StatusCode → Bytes → Bytes → Type 0 where
  full :
      Declined queue_full service_unavailable
        (codes "INFERENCE_QUEUE_FULL")
        (codes "inference queue is full")
  not_running :
      Declined stopped service_unavailable
        (codes "SCHEDULER_UNAVAILABLE")
        (codes "inference scheduler is not running")
  no_backend :
      Declined backend_unavailable unprocessable_entity
        (codes "BACKEND_UNAVAILABLE")
        (codes "requested inference backend is not available")
  no_model :
      Declined model_unavailable unprocessable_entity
        (codes "MODEL_UNAVAILABLE")
        (codes "requested model is not available")

-- the status for a request that is not valid, by the code of its error
pub data Invalid (code : Bytes) : StatusCode → Type 0 where
  wrong_method : code ≡ codes "METHOD_NOT_ALLOWED" → Invalid code method_not_allowed
  wrong_type : code ≡ codes "UNSUPPORTED_IMAGE_TYPE" → Invalid code unsupported_media_type
  wrong_fields :
      code ≢ codes "METHOD_NOT_ALLOWED"
      → code ≢ codes "UNSUPPORTED_IMAGE_TYPE"
      → Invalid code bad_request

module _ {Handle Real Metrics : Type 0} (sink : MetricsOps Metrics Real) (id time : ℕ)
    (b : Built Real) (scheduler : Option (Scheduler Handle Real ℕ Metrics)) where
  -- why the request that was read is not run, with the status, the code and the message
  pub data Why : StatusCode → Bytes → Bytes → Type 0 where
    not_valid :
        {status : StatusCode} {code message : Bytes}
        → b ≡ rejected code message
        → Invalid code status
        → Why status code message
    no_scheduler :
        (r : InferenceRequest Real)
        → b ≡ built r
        → scheduler ≡ none
        → Why service_unavailable
            (codes "SCHEDULER_UNAVAILABLE")
            (codes "inference scheduler is not running")
    not_taken :
        {status : StatusCode} {code message : Bytes} (r : InferenceRequest Real)
        (s : Scheduler Handle Real ℕ Metrics) (result : SubmitResult)
        → b ≡ built r
        → scheduler ≡ some s
        → (submit sink r (some id) time s).0 ≡ result
        → Declined result status code message
        → Why status code message

-- A response that tells this error and closes.
pub record Tells {J Real : Type 0} (json : Json J Real) (request_id : Bytes) (status : StatusCode)
    (code message : Bytes) (response : Response) : Type 0 where
  pub status_is : response.status_code ≡ status
  pub closes : response.close_connection ≡ true
  pub body :
      response.body
      ≡ json.dump (
          json.object (
            (codes "success", json.flag false)
            ∷ (codes "request_id", json.text request_id)
            ∷ (
              codes "error",
              json.object
                  ((codes "code", json.text code) ∷ (codes "message", json.text message) ∷ []),
            )
            ∷ []))

-- The response is sent, as one text, and then the connection is shut down for writing.
pub record Answered (write : ℕ → Bytes → IoResult ℕ) (response : Response) (c c' : Connection)
    (effects : List Effect) : Type 0 where
  pub text : Bytes
  pub wire :
      text ≡ (retrieve_all_as_string (append_to_buffer response (Buffer.init 0 initial_size))).0
  pub connection : c' ≡ (shutdown true (send write true text c).0).0
  pub in_order :
      effects ≡ (send write true text c).1 ++ (shutdown true (send write true text c).0).1

module _ {Handle Real Metrics : Type 0} where
  -- The request that was read waits in the queue, behind the others, for the connection, which reads
  -- no more.
  pub record Queued (sink : MetricsOps Metrics Real) (id : ℕ) (b : Built Real)
      (s t : Handled Handle Real Metrics) : Type 0 where
    pub scheduler : Scheduler Handle Real ℕ Metrics
    pub task : Task Handle Real ℕ
    pub request : InferenceRequest Real
    pub read : b ≡ built request
    pub requested : task.request ≡ record request { model_name = task.request.model_name }
    pub had : s.scheduler ≡ some scheduler
    pub has : t.scheduler ≡ some (enqueue sink task scheduler)
    pub for_connection : task.completion ≡ some id
    pub connection : t.connection ≡ (stop_read true s.connection).0
    pub effects : t.effects ≡ s.effects ++ (stop_read true s.connection).1

  -- One response that says why goes out, and then the half close; the scheduler is as it was.
  pub record Refused {J : Type 0} (json : Json J Real) (sink : MetricsOps Metrics Real)
      (write : ℕ → Bytes → IoResult ℕ) (id time : ℕ) (request_id : Bytes) (b : Built Real)
      (s t : Handled Handle Real Metrics) : Type 0 where
    pub status : StatusCode
    pub code : Bytes
    pub message : Bytes
    pub response : Response
    pub sent : List Effect
    pub why : Why sink id time b s.scheduler status code message
    pub tells : Tells json request_id status code message response
    pub unchanged : t.scheduler ≡ s.scheduler
    pub effects : t.effects ≡ s.effects ++ sent
    pub answered : Answered write response s.connection t.connection sent

pub send_response_and_close-Answered :
    (write : ℕ → Bytes → IoResult ℕ) (response : Response) (c : Connection)
    → let (c', effects) = send_response_and_close write true response c in
      Answered write response c c' effects
unfolding send_response_and_close response_text
send_response_and_close-Answered write response c = record {
  text = response_text response;
  wire = refl;
  connection = refl;
  in_order = refl;
}

module _ {J Real : Type 0} (json : Json J Real) where
  set_json_error-Tells :
      (status : StatusCode) (phrase id code message : Bytes) (r : Response)
      → r.close_connection ≡ true
      → Tells json id status code message (set_json_error json status phrase id code message r)
  unfolding set_json_error set_content_type add_header serialize_api_error
  set_json_error-Tells status phrase id code message r h = record {
    status_is = refl;
    closes = h;
    body = refl;
  }

  pub reject-Tells :
      (id code message : Bytes)
      → (status : StatusCode) × Invalid code status
        × Tells json id status code message (reject json id code message (Response.init true))
  unfolding reject Response.init add_header
  reject-Tells id code message = go _ _ refl refl
    where
      go :
          (method image : Bool)
          → equal code (codes "METHOD_NOT_ALLOWED") ≡ method
          → equal code (codes "UNSUPPORTED_IMAGE_TYPE") ≡ image
          → (status : StatusCode) × Invalid code status
            × Tells json id status code message (reject json id code message (Response.init true))
      go true image e k = (
        method_not_allowed,
        wrong_method ((equal_iff _ _).0 e),
        rw e (set_json_error-Tells _ _ id code message _ refl),
      )
      go false true e k = (
        unsupported_media_type,
        wrong_type ((equal_iff _ _).0 k),
        rw (e, k) (set_json_error-Tells _ _ id code message _ refl),
      )
      go false false e k = (
        bad_request,
        wrong_fields (λ h. cc (e, (equal_iff _ _).1 h)) (λ h. cc (k, (equal_iff _ _).1 h)),
        rw (e, k) (set_json_error-Tells _ _ id code message _ refl),
      )

  pub refuse-Tells :
      (status : StatusCode) (phrase id code message : Bytes)
      → Tells json id status code message
          (set_json_error json status phrase id code message (Response.init true))
  unfolding Response.init
  refuse-Tells status phrase id code message =
      set_json_error-Tells status phrase id code message (Response.init true) refl

  add_header-Tells :
      (key value id code message : Bytes) (status : StatusCode) (r : Response)
      → Tells json id status code message r
      → Tells json id status code message (add_header key value r)
  unfolding add_header
  add_header-Tells key value id code message status r h = record {
    status_is = h.status_is;
    closes = h.closes;
    body = h.body;
  }

  pub refuse_submit-Tells :
      (result : SubmitResult) (id : Bytes)
      → result ≢ accepted
      → (status : StatusCode) × (code : Bytes) × (message : Bytes) × Declined result status code
          message
        × Tells json id status code message (refuse_submit json result id)
  unfolding refuse_submit
  refuse_submit-Tells accepted id h = absurd (h refl)
  refuse_submit-Tells queue_full id h =
      (_, _, _, full, add_header-Tells _ _ id _ _ _ _ (refuse-Tells _ _ id _ _))
  refuse_submit-Tells stopped id h =
      (_, _, _, not_running, add_header-Tells _ _ id _ _ _ _ (refuse-Tells _ _ id _ _))
  refuse_submit-Tells backend_unavailable id h = (_, _, _, no_backend, refuse-Tells _ _ id _ _)
  refuse_submit-Tells model_unavailable id h = (_, _, _, no_model, refuse-Tells _ _ id _ _)
