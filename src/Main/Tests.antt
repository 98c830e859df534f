-- ===== src/Main/Tests.antt =====
-- A server with a port in its environment and without a registry, and the theorems at it.
use my_tiny_network_library.Base.{
  ℕ, ◌≡◌, ◌≢◌, ◌↔◌, refl, arith, true, false, [], Option, none, some, if◌then◌else◌, Bytes, codes,
  decimal, digits, equal, All,
}
use my_tiny_network_library.Http.Chars.{strtoull, convert, signed_digits, scan_digits, skip}
use my_tiny_network_library.Http.Request
use my_tiny_network_library.Http.Request.{Request}
use my_tiny_network_library.Http.Response
use my_tiny_network_library.Http.Response.{StatusCode, unknown, not_found}
use my_tiny_network_library.Inference.Mock.{MockBackend, mock}
use my_tiny_network_library.Api.Json.{Json}
use my_tiny_network_library.Api.Controller.{Handled}
use my_tiny_network_library.Buffer.{Buffer}
use my_tiny_network_library.Reactor.Channel
use my_tiny_network_library.Tcp.Connection.{Connection, connected}
use my_tiny_network_library.Main.Config.{set, ◌>>=◌, positive_environment, Configuration, configure}
use my_tiny_network_library.Main.Config.Bounds.{InRange, configure-InRange}
use my_tiny_network_library.Main.Config.Written.{positive_environment-decimal}
use my_tiny_network_library.Main.Routes.{FileAnswers, Site, on_request}
use my_tiny_network_library.Main.Routes.Found.{routes, on_request-routes}

abbrev port_name : Bytes
port_name = codes "MYWEBSERVER_PORT"

-- an environment in which only the port is set
abbrev environment : Bytes → Option Bytes
environment name = if equal name port_name then some (codes "8080") else none

abbrev configured : Configuration
configured = record { port = 8080; worker_count = 2; queue_capacity = 128 }

is_configured : configure environment ≡ set configured
unfolding configure positive_environment ◌>>=◌ equal strtoull convert signed_digits scan_digits skip
is_configured = refl

configure-InRange_example : InRange configured
configure-InRange_example = configure-InRange environment configured is_configured

port_written : environment port_name ≡ some (decimal 8080)
unfolding equal decimal digits
port_written = refl

positive_environment-decimal_example :
    positive_environment environment port_name 10000 65535 ≡ set 8080
positive_environment-decimal_example =
    positive_environment-decimal environment port_name 10000 65535 8080 port_written (omega arith)

-- documents are texts
abbrev flat : Json Bytes ℕ
flat = record {
  text = λ t. t;
  flag = λ b. [];
  count = λ n. [];
  integer = λ n. [];
  real = λ r. [];
  object = λ o. [];
  array = λ a. [];
  dump = λ t. t;
}

abbrev site : Site Bytes MockBackend ℕ ℕ
unfolding mock
site = record {
  json = flat;
  strtof = λ text. record { value = 0; range_error = false; rest = [] };
  is_negative = λ r. false;
  above_one = λ r. false;
  quarter = 25;
  ops = mock (λ digits places. digits) 3;
  registry = none;
  real_text = λ r. [];
  bounds = [];
  metrics = none;
}

abbrev room : Buffer
room = record { fd = 0; buffer = []; reader_index = 8; writer_index = 8 }

abbrev client : Connection
client = record {
  state = connected;
  reading = true;
  channel = record {
    fd = 7;
    events = Channel.none_event;
    revents = Channel.none_event;
    index = Channel.added;
    tied = true;
    has_read = true;
    has_write = true;
    has_close = true;
    has_error = true;
  };
  has_write_complete = false;
  has_high_water = false;
  high_water_mark = 64;
  input_buffer = room;
  output_buffer = room;
}

abbrev controller : Handled ℕ ℕ ℕ
controller = record {
  scheduler = none;
  sequence = 1;
  has_metrics = false;
  noted = [];
  connection = client;
  effects = [];
}

abbrev page : FileAnswers
page = record { opens = true; size = some 2; mapped = some (codes "hi") }

abbrev request : Request
request = record {
  method = Request.get;
  version = Request.http11;
  path = codes "/healthz";
  query = [];
  receive_time = 0;
  headers = [];
  body_form = [];
  files = [];
  body = [];
}

abbrev status : StatusCode
status =
    let answered =
      on_request site page 1 (record { loaded = true }) request (Response.init false) controller in
    answered.0.status_code

on_request-routes_example :
    (status ≢ unknown) × ((status ≡ not_found) ↔ All (λ route. codes "/healthz" ≢ route) routes)
on_request-routes_example =
    on_request-routes site page 1 (record { loaded = true }) request (Response.init false)
      controller
