-- ===== src/Http/Tests.antt =====
-- Runs of the response printer and of the server, and their theorems there.
use my_tiny_network_library.Base.{
  ℕ, ◌≡◌, ◌≤◌, ◌+◌, refl, arith, true, [], ◌∷◌, ◌++◌, none, some, Bytes, codes, length, decimal,
  digits, max_size, replicate,
}
use my_tiny_network_library.Buffer.{Buffer, IoResult, moved}
use my_tiny_network_library.Buffer.Inv.{IsValid, contents}
use my_tiny_network_library.Http.Response.{Response, ok, append_to_buffer, status_number}
use my_tiny_network_library.Http.Response.Text.{append_to_buffer_lem, joined, response_texts}
use my_tiny_network_library.Http.Context
use my_tiny_network_library.Http.Context.{Context}
use my_tiny_network_library.Http.Context.Waiting.{InLimits}
use my_tiny_network_library.Http.Server.{
  Callbacks, Served, Turned, on_message, default_http_callback, context_of,
}
use my_tiny_network_library.Http.Server.Total.{Rests, on_message-Rests}
use my_tiny_network_library.Tcp.Connection
use my_tiny_network_library.Tcp.Connection.{Connection, connect_established}

abbrev small : Buffer
small = record { fd = 0; buffer = replicate 20 0; reader_index = 8; writer_index = 8 }

small-IsValid : IsValid small
small-IsValid = omega arith

abbrev hello : Response
hello = record {
  headers = (codes "A", codes "b") ∷ [];
  other_message = [];
  status_code = ok;
  status_message = codes "OK";
  close_connection = true;
  body = codes "hi";
}

hello_text :
    joined (response_texts hello)
    ≡ codes "HTTP/1.1 200 OK\r\nConnection: close\r\nContent-Length: 2\r\nA: b\r\n\r\nhi"
unfolding decimal digits status_number
hello_text = refl

hello_fits : small.writer_index + length (joined (response_texts hello)) ≤ max_size
unfolding decimal digits status_number
hello_fits = omega arith

append_to_buffer_example :
    IsValid (append_to_buffer hello small)
    × (contents (append_to_buffer hello small) ≡ contents small ++ joined (response_texts hello))
append_to_buffer_example = append_to_buffer_lem hello small small-IsValid (omega arith) hello_fits

-- a server that answers everything with 404, and a kernel that takes all
abbrev callbacks : Callbacks ℕ
callbacks = record {
  http = λ req resp requests. (default_http_callback req resp, requests + 1);
  async = none;
}

takes_all : ℕ → Bytes → IoResult ℕ
takes_all fd text = moved (length text)

abbrev begun : Served ℕ
begun = record {
  connection = (connect_established (Connection.init 7 0 0)).0;
  effects = [];
  world = 0;
}

abbrev two_requests : Buffer
two_requests = record {
  fd = 0;
  buffer = replicate 8 0 ++ codes "GET / HTTP/1.1\r\n\r\nGET / HTTP/1.1\r\n\r\n";
  reader_index = 8;
  writer_index = 44;
}

init-InLimits : InLimits (context_of none)
unfolding Context.init
init-InLimits = record { unfinished = λ e. cc; headers = omega arith; body = λ e. cc }

on_message-Rests_example :
    (out : Turned ℕ) × (on_message takes_all callbacks 3 none two_requests begun ≡ some out)
    × Rests callbacks out
on_message-Rests_example =
    on_message-Rests takes_all callbacks 3 none two_requests begun (omega arith) init-InLimits
