-- ===== src/Api/Controller.antt =====
-- src/api/InferenceController.h and InferenceController.cc. A completion that waits in the scheduler is
-- the number of the connection that it keeps a weak pointer to. What the controller tells `metrics_`
-- is a list; the connection is the one that the request came from. The clock is an argument.
pub mod Handle
pub mod Valid
pub mod Refusals
pub mod Decided
pub mod Answers
use my_tiny_network_library.Base.{
  ℕ, zero, suc, ◌+◌, ◌/◌, ◌%◌, Bool, true, false, not, ◌&&◌, ◌||◌, List, [], ◌∷◌, ◌++◌, Option,
  none, some, if◌then◌else◌, ltb, ◌==◌, Bytes, codes, equal, is_empty, length,
}
use my_tiny_network_library.Buffer.{IoResult, initial_size, retrieve_all_as_string}
use my_tiny_network_library.Buffer
use my_tiny_network_library.Http.Chars.{c_string}
use my_tiny_network_library.Http.Request.{Request, Method, post, UploadedFile, get_body_form}
use my_tiny_network_library.Http.Response.{
  Response, StatusCode, ok, bad_request, method_not_allowed, unsupported_media_type,
  unprocessable_entity, internal_server_error, not_implemented, service_unavailable, add_header,
  set_content_type, append_to_buffer,
}
use my_tiny_network_library.Http.Response
use my_tiny_network_library.Tcp.Connection.{
  Connection, Effect, is_connected, send, shutdown, stop_read,
}
use my_tiny_network_library.Inference.Types.{
  BackendType, auto, InferenceRequest, InferenceResult, MetricsOps, parse_backend_type,
}
use my_tiny_network_library.Inference.Scheduler.{
  Scheduler, SubmitResult, accepted, queue_full, stopped, backend_unavailable, model_unavailable,
  submit,
}
use my_tiny_network_library.Api.Json.{Json, serialize_api_error, serialize_inference_result}

-- `recordValidationFailure` and `recordSubmissionFailure`
pub data Noted : Type 0 where
  validation_failure : Bytes → Noted
  submission_failure : Bytes → BackendType → Bytes → Noted

-- what `strtof` gives: the value, whether `errno` is set, and the text from `end` on
pub record Floated (Real : Type 0) : Type 0 where
  pub value : Real
  pub range_error : Bool
  pub rest : Bytes

-- A request, or the code and the message of an error.
pub data Built (Real : Type 0) : Type 0 where
  built : InferenceRequest Real → Built Real
  rejected : Bytes → Bytes → Built Real

-- lower-case hexadecimal digits, with a round of fuel for each
unfoldable pub hex_digits : ℕ → ℕ → Bytes
hex_digits zero n = []
hex_digits (suc fuel) n =
    let high = hex_digits fuel (n / 16) in
    let digit = n % 16 in
    (if n / 16 == 0 then [] else high) ++ (if ltb digit 10 then 48 + digit else 87 + digit) ∷ []

-- `std::hex` is set for both numbers.
unfoldable pub next_request_id : ℕ → ℕ → Bytes
next_request_id now sequence =
    hex_digits (now + 1) now ++ (codes "-" ++ hex_digits (sequence + 1) sequence)

abbrev is_post : Method → Bool
is_post post = true
is_post _ = false

-- `files().size() != 1`, else the file
abbrev pub only_file : List UploadedFile → Option UploadedFile
only_file (file ∷ []) = some file
only_file _ = none

abbrev pub is_image_type : Bytes → Bool
is_image_type content_type =
    equal content_type (codes "image/jpeg") || equal content_type (codes "image/png")

-- the name of the model, which is "default" if it is empty
abbrev pub or_default : Bytes → Bytes
or_default name = if is_empty name then codes "default" else name

module _ {Real : Type 0} (strtof : Bytes → Floated Real) (is_negative above_one : Real → Bool) where
  -- the threshold, or the one before; `none` is an error
  unfoldable pub parse_threshold : Bytes → Real → Option Real
  parse_threshold threshold before =
      let text = c_string threshold in
      let parsed = strtof text in
      if is_empty threshold
      then some before
      else if parsed.range_error
          || length parsed.rest == length text
          || not (is_empty parsed.rest)
          || is_negative parsed.value
          || above_one parsed.value
      then none
      else some parsed.value

  abbrev pub with_threshold : UploadedFile → InferenceRequest Real → Option Real → Built Real
  with_threshold file r none =
      rejected (codes "INVALID_THRESHOLD") (codes "threshold must be a number between 0 and 1")
  with_threshold file r (some threshold) = built (record r {
    confidence_threshold = threshold;
    image = record {
      encoded = some file.content;
      file_name = file.file_name;
      content_type = file.content_type;
    };
  })

  abbrev pub with_backend :
      Request → UploadedFile → InferenceRequest Real → Option BackendType → Built Real
  with_backend http file r none =
      rejected (codes "INVALID_BACKEND") (codes "backend must be auto, tensorflow, or tensorrt")
  with_backend http file r (some backend) =
      with_threshold file (record r { backend = backend })
        (parse_threshold (get_body_form (codes "threshold") http) r.confidence_threshold)

  abbrev pub with_file : Request → InferenceRequest Real → Option UploadedFile → Built Real
  with_file http r none =
      rejected (codes "INVALID_IMAGE_COUNT") (codes "exactly one image file is required")
  with_file http r (some file) =
      if not (equal file.field_name (codes "image")) || is_empty file.content
      then rejected (codes "INVALID_IMAGE")
          (codes "a non-empty multipart file field named image is required")
      else if not (is_image_type file.content_type)
      then rejected (codes "UNSUPPORTED_IMAGE_TYPE")
          (codes "only image/jpeg and image/png are supported")
      else with_backend http file
          (record r { model_name = or_default (get_body_form (codes "model") http) })
          (parse_backend_type (get_body_form (codes "backend") http))

  unfoldable pub build_request : Request → InferenceRequest Real → Built Real
  build_request http r =
      if not (is_post http.method)
      then rejected (codes "METHOD_NOT_ALLOWED") (codes "POST method is required")
      else with_file http r (only_file http.files)

-- an `InferenceRequest` with its first values; `quarter` is 0.25
abbrev pub blank : {Real : Type 0} → Real → Bytes → InferenceRequest Real
blank quarter request_id = record {
  request_id = request_id;
  model_name = [];
  backend = auto;
  confidence_threshold = quarter;
  image = record { encoded = none; file_name = []; content_type = [] };
}

-- the code and the message of a refusal, whether it is the request's fault
abbrev pub refusal : SubmitResult → Bool × Bytes × Bytes
refusal backend_unavailable =
    (true, codes "BACKEND_UNAVAILABLE", codes "requested inference backend is not available")
refusal model_unavailable =
    (true, codes "MODEL_UNAVAILABLE", codes "requested model is not available")
refusal queue_full = (false, codes "INFERENCE_QUEUE_FULL", codes "inference queue is full")
refusal _ = (false, codes "SCHEDULER_UNAVAILABLE", codes "inference scheduler is not running")

module _ {J Real : Type 0} (json : Json J Real) where
  unfoldable pub set_json_error : StatusCode → Bytes → Bytes → Bytes → Bytes → Response → Response
  set_json_error status status_message request_id code message response =
      record (set_content_type (codes "application/json; charset=utf-8") response) {
        status_code = status;
        status_message = status_message;
        body = serialize_api_error json request_id code message;
      }

  -- the answer to a request that is not valid
  unfoldable pub reject : Bytes → Bytes → Bytes → Response → Response
  reject request_id code message response =
      if equal code (codes "METHOD_NOT_ALLOWED")
      then set_json_error method_not_allowed (codes "Method Not Allowed") request_id code message
          (add_header (codes "Allow") (codes "POST") response)
      else if equal code (codes "UNSUPPORTED_IMAGE_TYPE")
      then set_json_error unsupported_media_type (codes "Unsupported Media Type") request_id code
          message response
      else set_json_error bad_request (codes "Bad Request") request_id code message response

  unfoldable pub refuse_submit : SubmitResult → Bytes → Response
  refuse_submit result request_id =
      let (unprocessable, code, message) = refusal result in
      let response = Response.init true in
      if unprocessable
      then set_json_error unprocessable_entity (codes "Unprocessable Entity") request_id code
          message response
      else add_header (codes "Retry-After") (codes "1") (
          set_json_error service_unavailable (codes "Service Unavailable") request_id code message
            response)

  -- the answer with the result of an inference
  unfoldable pub completed : InferenceResult Real → Response
  completed result =
      let response =
        record (set_content_type (codes "application/json; charset=utf-8") (Response.init true)) {
          body = serialize_inference_result json result;
        } in
      if result.success
      then record response { status_code = ok; status_message = codes "OK" }
      else if equal result.error_code (codes "IMAGE_DECODE_FAILED")
      then record response {
        status_code = unprocessable_entity;
        status_message = codes "Unprocessable Entity";
      }
      else record response {
        status_code = internal_server_error;
        status_message = codes "Internal Server Error";
      }

-- the text of a response
unfoldable pub response_text : Response → Bytes
response_text response =
    (retrieve_all_as_string (append_to_buffer response (Buffer.init 0 initial_size))).0

unfoldable pub send_response_and_close :
    (ℕ → Bytes → IoResult ℕ) → Bool → Response → Connection → Connection × List Effect
send_response_and_close write in_loop response c =
    let (c', sent) = send write in_loop (response_text response) c in
    let (c'', shut) = shutdown in_loop c' in (c'', sent ++ shut)

-- The controller with the scheduler that it may have, and the connection of the request.
pub record Handled (Handle Real Metrics : Type 0) : Type 0 where
  pub scheduler : Option (Scheduler Handle Real ℕ Metrics)
  pub sequence : ℕ
  pub has_metrics : Bool
  pub noted : List Noted
  pub connection : Connection
  pub effects : List Effect
