-- ===== src/Api/Controller/Answers.antt =====
-- A request for an inference is queued or answered.
use my_tiny_network_library.Base.{
  ℕ, add_size, ◌≡◌, ◌≢◌, ◌⊎◌, inl, inr, refl, sym, ap, subst, Bool, true, List, Option, none, some,
  Bytes, codes, equal, equal_iff,
}
use my_tiny_network_library.Buffer.{IoResult}
use my_tiny_network_library.Http.Request.{Request}
use my_tiny_network_library.Http.Response.{Response, StatusCode, service_unavailable}
use my_tiny_network_library.Http.Response
use my_tiny_network_library.Inference.Types.{InferenceRequest, MetricsOps}
use my_tiny_network_library.Inference.Scheduler.{
  Scheduler, SubmitResult, accepted, queue_full, stopped, backend_unavailable, model_unavailable,
  Admission, refused, admitted, admission, submit,
}
use my_tiny_network_library.Inference.Scheduler.Moves.{submit-refused, submit-admitted}
use my_tiny_network_library.Api.Json.{Json}
use my_tiny_network_library.Api.Controller.{
  Floated, Built, built, rejected, blank, next_request_id, reject, refusal, refuse_submit, Noted,
  send_response_and_close, Handled, submission_failure,
}
use my_tiny_network_library.Api.Controller.Handle.{
  read_request, unscheduled, numbered, note, on_connection, after_submit, submit_to, async_built,
  handle_async,
}
use my_tiny_network_library.Api.Controller.Valid.{build_request-IsValid}
use my_tiny_network_library.Api.Controller.Refusals.{
  Why, not_valid, no_scheduler, not_taken, Tells, Queued, Refused, send_response_and_close-Answered,
  refuse-Tells, reject-Tells, refuse_submit-Tells,
}
use my_tiny_network_library.Api.Controller.Decided.{Decided, admission-Decided}

module _ {J Handle Real Metrics : Type 0} (json : Json J Real) (sink : MetricsOps Metrics Real)
    (write : ℕ → Bytes → IoResult ℕ) (id time : ℕ) where
  -- the request is queued, or answered
  abbrev pub Settled :
      Bytes → Built Real → Handled Handle Real Metrics → Handled Handle Real Metrics → Type 0
  Settled request_id b s t = Queued sink id b s t ⊎ Refused json sink write id time request_id b s t

  -- one answer, whatever is noted and counted beside it
  answered-Refused :
      (request_id : Bytes) (b : Built Real) (status : StatusCode) (code message : Bytes)
      (response : Response) (s : Handled Handle Real Metrics)
      (scheduler : Option (Scheduler Handle Real ℕ Metrics)) (sequence : ℕ) (noted : List Noted)
      → Why sink id time b s.scheduler status code message
      → Tells json request_id status code message response
      → scheduler ≡ s.scheduler
      → Refused json sink write id time request_id b s (
          on_connection
            (send_response_and_close write true response)
            (record s { scheduler = scheduler; sequence = sequence; noted = noted }))
  answered-Refused request_id b status code message response s scheduler sequence noted why h e =
      record {
        status = status;
        code = code;
        message = message;
        response = response;
        sent = (send_response_and_close write true response s.connection).1;
        why = why;
        tells = h;
        unchanged = e;
        effects = refl;
        answered = send_response_and_close-Answered write response s.connection;
      }

  after_submit-Refused :
      (r : InferenceRequest Real) (sequence : ℕ) (result : SubmitResult)
      (scheduler : Scheduler Handle Real ℕ Metrics) (s : Handled Handle Real Metrics)
      → some scheduler ≡ s.scheduler
      → (submit sink r (some id) time scheduler).0 ≡ result
      → result ≢ accepted
      → Refused json sink write id time r.request_id (built r) s (
          after_submit json sink write r result
            (record s { sequence = sequence; scheduler = some scheduler }))
  after_submit-Refused r sequence result scheduler s e k h =
      let (status, code, message, declined, tells) =
        refuse_submit-Tells json result r.request_id h in
      subst (λ t. Refused json sink write id time r.request_id (built r) s t) (sym (shown result h))
        (answered-Refused r.request_id (built r) status code message
          (refuse_submit json result r.request_id) s (some scheduler) sequence (noted_of result)
          (not_taken r scheduler result refl (sym e) k declined) tells e)
    where
      before : Handled Handle Real Metrics
      before = record s { sequence = sequence; scheduler = some scheduler }

      noted_of : SubmitResult → List Noted
      noted_of result =
          (note (submission_failure r.model_name r.backend (refusal result).1) before).noted

      shown :
          (result : SubmitResult)
          → result ≢ accepted
          → after_submit json sink write r result before
            ≡ on_connection
                (send_response_and_close write true (refuse_submit json result r.request_id))
                (record s {
                  scheduler = some scheduler;
                  sequence = sequence;
                  noted = noted_of result;
                })
      shown accepted h = absurd (h refl)
      shown queue_full h = refl
      shown stopped h = refl
      shown backend_unavailable h = refl
      shown model_unavailable h = refl

  submit_to-Settled :
      (r : InferenceRequest Real) (sequence : ℕ)
      (scheduler : Option (Scheduler Handle Real ℕ Metrics)) (s : Handled Handle Real Metrics)
      → scheduler ≡ s.scheduler
      → Settled r.request_id
          (built r)
          s
          (submit_to json sink write r id time scheduler (record s { sequence = sequence }))
  submit_to-Settled r sequence none s e = inr (
      answered-Refused r.request_id (built r) _ _ _ (unscheduled json r.request_id) s s.scheduler
        sequence
        (note (submission_failure r.model_name r.backend (codes "scheduler_unavailable")) s).noted
        (no_scheduler r refl (sym e)) (refuse-Tells json _ _ r.request_id _ _) refl)
  submit_to-Settled r sequence (some scheduler) s e =
      go _ refl (admission-Decided r (some id) time scheduler)
    where
      after : SubmitResult × Scheduler Handle Real ℕ Metrics → Handled Handle Real Metrics
      after (result, scheduler') =
          after_submit json sink write r result
            (record s { sequence = sequence; scheduler = some scheduler' })

      go :
          (a : Admission Handle Real ℕ)
          → admission r (some id) time scheduler ≡ a
          → Decided r (some id) a
          → Settled r.request_id (built r) s (after (submit sink r (some id) time scheduler))
      go (admitted task) k d =
          subst (λ p. Settled r.request_id (built r) s (after p))
            (sym (submit-admitted sink r (some id) time scheduler task k))
            (inl (record {
              scheduler = scheduler;
              task = task;
              request = r;
              read = refl;
              requested = d.1;
              had = sym e;
              has = refl;
              for_connection = d.0;
              connection = refl;
              effects = refl;
            }))
      go (refused result) k d =
          let said = submit-refused sink r (some id) time scheduler result k in
          subst (λ p. Settled r.request_id (built r) s (after p)) (sym said)
            (inr (after_submit-Refused r sequence result scheduler s e (ap (λ p. p.0) said) d))

  async_built-Settled :
      (request_id : Bytes) (b : Built Real) (s : Handled Handle Real Metrics)
      → ((r : InferenceRequest Real) → b ≡ built r → r.request_id ≡ request_id)
      → Settled request_id b s (async_built json sink write request_id b id time (numbered s))
  async_built-Settled request_id (rejected code message) s same =
      let (status, invalid, tells) = reject-Tells json request_id code message in
      inr (
        answered-Refused request_id (rejected code message) status code message
          (reject json request_id code message (Response.init true)) s s.scheduler
          (add_size s.sequence 1) s.noted (not_valid refl invalid) tells refl)
  async_built-Settled request_id (built r) s same =
      subst
        (λ i. Settled i (built r) s (async_built json sink write i (built r) id time (numbered s)))
        (same r refl) (submit_to-Settled r (add_size s.sequence 1) s.scheduler s refl)

  -- Every request for /v1/infer is taken by `handleAsync`. Either one task for its connection, with
  -- the request that was read, waits in the queue of the scheduler and the connection stops reading.
  -- Or the scheduler stays as it was and the connection gets one response, in one piece, and is then
  -- shut down for writing; the response closes, and its body is the error with the identifier of the
  -- request, a code and a message: those of the request that is not valid, with status 405 for the
  -- method, 415 for the type of the image and 400 else; or those of the missing or stopped scheduler
  -- or of the full queue, with 503; or those of the backend or the model that is not there, with 422.
  pub handle_async-Settled :
      (strtof : Bytes → Floated Real) (is_negative above_one : Real → Bool) (quarter : Real)
      (now : ℕ) (http : Request) (s : Handled Handle Real Metrics)
      → http.path ≡ codes "/v1/infer"
      → let (taken, t) =
          handle_async json sink write strtof is_negative above_one quarter now time id http s in
        let b = read_request json strtof is_negative above_one quarter now http s in
        (taken ≡ true) × Settled (next_request_id now s.sequence) b s t
  unfolding handle_async
  handle_async-Settled strtof is_negative above_one quarter now http s h =
      let here : equal http.path (codes "/v1/infer") ≡ true = (equal_iff _ _).1 h in
      let b = read_request json strtof is_negative above_one quarter now http s in
      rw here (
        refl,
        async_built-Settled (next_request_id now s.sequence) b s (λ r e.
            (build_request-IsValid strtof is_negative above_one http
              (blank quarter (next_request_id now s.sequence)) r e).same_id),
      )
