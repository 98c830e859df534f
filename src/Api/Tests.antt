-- ===== src/Api/Tests.antt =====
-- Runs of the controllers over bytes in the place of JSON documents, and their theorems there.
use my_tiny_network_library.Base.{
  ℕ, ◌≡◌, refl, Bool, true, false, [], ◌∷◌, some, Bytes, codes, equal, break_at, length, pos, ltb,
  replicate,
}
use my_tiny_network_library.Buffer.{Buffer, IoResult, moved}
use my_tiny_network_library.Http.Request.{Request, post, get, http11, get_body_form}
use my_tiny_network_library.Http.Response
use my_tiny_network_library.Http.Response.{Response}
use my_tiny_network_library.Reactor.Channel
use my_tiny_network_library.Http.Fields.{lookup}
use my_tiny_network_library.Http.Chars.{c_string}
use my_tiny_network_library.Tcp.Connection.{Connection, connected}
use my_tiny_network_library.Inference.Types.{
  auto, tensor_rt, parse_backend_type, InferenceBackend, InferenceRequest, MetricsOps,
}
use my_tiny_network_library.Inference.Registry.{ModelRegistry}
use my_tiny_network_library.Inference.Mock.{MockBackend, mock}
use my_tiny_network_library.Inference.Scheduler.{Scheduler, waiting}
use my_tiny_network_library.Api.Json.{Json}
use my_tiny_network_library.Api.Controller.{
  next_request_id, parse_threshold, Floated, Built, built, build_request, blank, Handled,
}
use my_tiny_network_library.Api.Controller.Handle.{handle_async, read_request}
use my_tiny_network_library.Api.Controller.Valid.{IsValid, build_request-IsValid}
use my_tiny_network_library.Api.Controller.Answers.{Settled, handle_async-Settled}
use my_tiny_network_library.Api.Management.{handle_health}
use my_tiny_network_library.Api.Management.Health.{Reported, handle_health-Reported}

-- documents are texts
abbrev flat : Json Bytes ℕ
flat = record {
  text = λ t. t;
  flag = λ b. [];
  count = λ n. [];
  integer = λ n. [];
  real = λ r. [];
  object = λ o. [];
  array = λ a. [];
  dump = λ t. t;
}

-- the number of percents that the first byte of a text is
abbrev percents : Bytes → Floated ℕ
percents [] = record { value = 0; range_error = false; rest = [] }
percents (c ∷ cs) = record { value = c; range_error = false; rest = cs }

abbrev none_below : ℕ → Bool
none_below n = false

abbrev above : ℕ → Bool
above n = ltb 100 n

-- an upload of one picture of two bytes, with a threshold
abbrev sent_upload : Request
sent_upload = record {
  method = post;
  version = http11;
  path = codes "/v1/infer";
  query = [];
  receive_time = 0;
  headers = [];
  body_form = (codes "threshold", 50 ∷ []) ∷ [];
  files =
      record {
        field_name = codes "image";
        file_name = codes "a.png";
        content_type = codes "image/png";
        content = codes "xy";
      }
      ∷ [];
  body = [];
}

abbrev first_blank : InferenceRequest ℕ
first_blank = blank 25 (codes "1-1")

-- the request that the upload becomes
abbrev read_upload : InferenceRequest ℕ
read_upload = record {
  request_id = codes "1-1";
  model_name = codes "default";
  backend = auto;
  confidence_threshold = 50;
  image = record {
    encoded = some (codes "xy");
    file_name = codes "a.png";
    content_type = codes "image/png";
  };
}

-- `build_request` with all that it calls open
builds : Request → InferenceRequest ℕ → Built ℕ
unfolding build_request get_body_form lookup parse_threshold parse_backend_type equal c_string
    break_at
builds = build_request percents none_below above

sent_upload-read :
    build_request percents none_below above sent_upload first_blank ≡ built read_upload
unfolding builds
sent_upload-read = refl

build_request-IsValid_example :
    IsValid percents none_below above sent_upload first_blank read_upload
build_request-IsValid_example =
    build_request-IsValid percents none_below above sent_upload first_blank read_upload
      sent_upload-read

abbrev one_model : ModelRegistry ℕ
one_model = record {
  default_model = codes "m";
  registrations =
      record {
        config = record {
          name = codes "m";
          version = codes "1";
          path = codes "/m";
          backend = tensor_rt;
          device_id = pos 0;
          max_concurrency = 1;
        };
        backend = some 4;
        priority = pos 0;
        available = true;
        load_error = [];
      }
      ∷ [];
}

abbrev sink : MetricsOps ℕ ℕ
sink = record {
  set_queue_capacity = λ n m. m;
  set_queue_depth = λ n m. n;
  record_completion = λ r m. m;
}

abbrev scheduler : Scheduler ℕ ℕ ℕ ℕ
scheduler = record {
  registry = one_model;
  metrics = some 0;
  worker_count = 1;
  queue_capacity = 2;
  tasks = [];
  workers = waiting ∷ [];
  running = true;
  stopping = false;
}

abbrev room : Buffer
room = record { fd = 0; buffer = replicate 16 0; reader_index = 8; writer_index = 8 }

abbrev client : Connection
client = record {
  state = connected;
  reading = true;
  channel = record {
    fd = 7;
    events = Channel.none_event;
    revents = Channel.none_event;
    index = Channel.added;
    tied = true;
    has_read = true;
    has_write = true;
    has_close = true;
    has_error = true;
  };
  has_write_complete = false;
  has_high_water = false;
  high_water_mark = 64;
  input_buffer = room;
  output_buffer = room;
}

abbrev before : Handled ℕ ℕ ℕ
before = record {
  scheduler = some scheduler;
  sequence = 1;
  has_metrics = true;
  noted = [];
  connection = client;
  effects = [];
}

-- the kernel takes all
abbrev takes_all : ℕ → Bytes → IoResult ℕ
takes_all fd text = moved (length text)

-- the scheduler takes the upload
abbrev after : Bool × Handled ℕ ℕ ℕ
after = handle_async flat sink takes_all percents none_below above 25 1 100 8 sent_upload before

abbrev upload_read : Built ℕ
upload_read = read_request flat percents none_below above 25 1 sent_upload before

handle_async-Settled_example :
    (after.0 ≡ true)
    × Settled flat sink takes_all 8 100
        (next_request_id 1 before.sequence)
        upload_read
        before
        after.1
handle_async-Settled_example =
    handle_async-Settled flat sink takes_all 8 100 percents none_below above 25 1 sent_upload before
      refl

abbrev backend : InferenceBackend MockBackend ℕ ℕ
unfolding mock
backend = mock (λ digits places. digits) 3

abbrev health : Response
health =
    handle_health flat backend (some one_model) (record { loaded = true })
      (record sent_upload { method = get }) (Response.init true)

handle_health-Reported_example :
    Reported backend (record { loaded = true }) flat one_model.registrations health
handle_health-Reported_example =
    handle_health-Reported backend (record { loaded = true }) flat (some one_model)
      (record sent_upload { method = get }) (Response.init true) refl
