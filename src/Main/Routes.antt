-- ===== src/Main/Routes.antt =====
-- `onRequest` and `read_file_to_string`. What it prints is left out. The text of the HTML file and the
-- answers of the controllers come through the functions of their modules.
pub mod Found
use my_tiny_network_library.Base.{
  ℕ, ◌+◌, Bool, true, false, not, List, [], ◌∷◌, ◌++◌, Option, none, some, if◌then◌else◌, Bytes,
  codes, equal, is_empty, take,
}
use my_tiny_network_library.Http.Request.{Request, UploadedFile}
use my_tiny_network_library.Http.Response.{
  Response, ok, bad_request, not_found, add_header, set_content_type,
}
use my_tiny_network_library.Inference.Types.{InferenceBackend}
use my_tiny_network_library.Inference.Registry.{ModelRegistry}
use my_tiny_network_library.Inference.Metrics.{InferenceMetrics}
use my_tiny_network_library.Api.Json.{Json}
use my_tiny_network_library.Api.Controller.{Floated, Handled}
use my_tiny_network_library.Api.Controller.Handle.{handle}
use my_tiny_network_library.Api.Management.{handle_health, handle_models, handle_metrics}
use my_tiny_network_library.Main.Favicon.{favicon}

-- What the system says about the file: whether it opens, its size, and its bytes if they can be mapped.
pub record FileAnswers : Type 0 where
  pub opens : Bool
  pub size : Option ℕ
  pub mapped : Option Bytes

-- what is given back to the system
pub data Released : Type 0 where
  unmapped closed : Released

abbrev pub copied : FileAnswers → ℕ → Option Bytes → Bytes × List Released
copied file size none = ([], closed ∷ [])
copied file size (some bytes) = (take size bytes, unmapped ∷ closed ∷ [])

abbrev pub with_size : FileAnswers → Option ℕ → Bytes × List Released
with_size file none = ([], closed ∷ [])
with_size file (some size) = copied file size file.mapped

unfoldable pub read_file_to_string : FileAnswers → Bytes × List Released
read_file_to_string file = if file.opens then with_size file file.size else ([], [])

-- the first page
unfoldable pub home : FileAnswers → Response → Response
home file response =
    record (add_header (codes "Server") (codes "mytinymuduo")
      (set_content_type (codes "text/html") response)) {
        status_code = ok;
        status_message = codes "OK";
        body = (read_file_to_string file).0;
      }

unfoldable pub icon : Response → Response
icon response = record (set_content_type (codes "image/png") response) {
  status_code = ok;
  status_message = codes "OK";
  body = favicon;
}

abbrev pub type_or_stream : Bytes → Bytes
type_or_stream content_type =
    if is_empty content_type then codes "application/octet-stream" else content_type

-- the first file goes back to the client
unfoldable pub upload : List UploadedFile → Response → Response
upload [] response = record response {
  status_code = bad_request;
  status_message = codes "Bad Request";
  close_connection = true;
}
upload (file ∷ files) response =
    record (add_header (codes "Server") (codes "mytinymuduo")
      (set_content_type (type_or_stream file.content_type) response)) {
        status_code = ok;
        status_message = codes "OK";
        body = file.content;
      }

unfoldable pub missing : Response → Response
missing response = record response {
  status_code = not_found;
  status_message = codes "Not Found";
  close_connection = true;
}

-- what the controllers are made with
pub record Site (J World Handle Real : Type 0) : Type 0 where
  pub json : Json J Real
  pub strtof : Bytes → Floated Real
  pub is_negative : Real → Bool
  pub above_one : Real → Bool
  pub quarter : Real
  pub ops : InferenceBackend World Handle Real
  pub registry : Option (ModelRegistry Handle)
  pub real_text : Real → Bytes
  pub bounds : List Real
  pub metrics : Option (InferenceMetrics Real)

module _ {J World Handle Real Metrics : Type 0} (site : Site J World Handle Real) where
  -- `file` is what the system says about the HTML file, `now` the clock and `w` the backends.
  unfoldable pub on_request :
      FileAnswers
      → ℕ
      → World
      → Request
      → Response
      → Handled Handle Real Metrics
      → Response × Handled Handle Real Metrics
  on_request file now w request response s =
      let path = request.path in
      if equal path (codes "/")
      then (home file response, s)
      else if equal path (codes "/favicon.ico")
      then (icon response, s)
      else if equal path (codes "/v1/infer")
      then handle site.json site.strtof site.is_negative site.above_one site.quarter now request
          response s
      else if equal path (codes "/healthz")
      then (handle_health site.json site.ops site.registry w request response, s)
      else if equal path (codes "/v1/models")
      then (handle_models site.json site.ops site.registry w request response, s)
      else if equal path (codes "/metrics")
      then (handle_metrics site.json site.real_text site.bounds site.metrics request response, s)
      else if equal path (codes "/upload")
      then (upload request.files response, s)
      else (missing response, s)
