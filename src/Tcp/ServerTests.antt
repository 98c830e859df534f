-- ===== src/Tcp/ServerTests.antt =====
-- Runs of a server with three loops, and its theorems there.
use my_tiny_network_library.Base.{
  ℕ, ◌≡◌, ◌++◌, refl, arith, [], ◌∷◌, some, codes, length, digits, decimal, true,
}
use my_tiny_network_library.Tcp.Pool.{Pool, get_next_loop, start_threads}
use my_tiny_network_library.Tcp.Pool
use my_tiny_network_library.Tcp.Pool.Rounds.{next_loops, next_loops-round}
use my_tiny_network_library.Tcp.Server.{
  Handle, Server, runs_established, queues_destroyed, conn_name, new_connection,
  remove_connection_in_loop,
}
use my_tiny_network_library.Tcp.Server.Names.{
  IsServer, Erased, new_connection-IsServer, remove_connection_in_loop-Erased,
}

-- loops are numbers; the base loop is 0, and the loop of a thread is 9 and the length of its name
abbrev three_loops : Pool ℕ
three_loops = record {
  base_loop = 0;
  name = codes "web";
  started = true;
  num_threads = 3;
  next = 1;
  loops = 7 ∷ 8 ∷ 9 ∷ [];
}

start_example :
    (Pool.start
      (λ name. length name)
      true
      (record (Pool.init 0 (codes "web")) { num_threads = 2 })).1.loops
    ≡ 4 ∷ 4 ∷ []
unfolding Pool.start Pool.init start_threads decimal digits
start_example = refl

next_loops-round_example : next_loops 3 three_loops ≡ some (8 ∷ 9 ∷ 7 ∷ [], three_loops)
next_loops-round_example = next_loops-round three_loops (omega arith)

abbrev first_handle : Handle ℕ
first_handle = record { loop = 7; name = codes "web-10.0.0.1:80#1"; sockfd = 12 }

abbrev one_connection : Server ℕ
one_connection = record {
  name = codes "web";
  ip_port = codes "10.0.0.1:80";
  pool = three_loops;
  started = 1;
  next_conn_id = 2;
  connections = (codes "web-10.0.0.1:80#1", first_handle) ∷ [];
}

one_connection-IsServer : IsServer one_connection
unfolding conn_name decimal digits
one_connection-IsServer =
    (record { own_name = refl; id = 1; earlier = omega arith; fits = omega arith; made = refl }, tt)

new_connection-IsServer_example :
    (t : Server ℕ) × (new_connection 13 one_connection
      ≡ some (
        t,
        runs_established (record { loop = 8; name = codes "web-10.0.0.1:80#2"; sockfd = 13 }) ∷ [],
      ))
    × (t.connections
        ≡ one_connection.connections
          ++ (
            codes "web-10.0.0.1:80#2",
            record { loop = 8; name = codes "web-10.0.0.1:80#2"; sockfd = 13 },
          )
            ∷ [])
    × IsServer t
unfolding conn_name decimal digits get_next_loop
new_connection-IsServer_example =
    new_connection-IsServer 13 one_connection 8 (record three_loops { next = 2 })
      one_connection-IsServer (omega arith) (omega arith) refl

remove_connection_in_loop-Erased_example :
    let (t, effects) = remove_connection_in_loop first_handle one_connection in
    Erased
      (codes "web")
      (codes "10.0.0.1:80")
      first_handle.name
      2
      one_connection.connections
      t.connections
    × IsServer t
    × (effects ≡ queues_destroyed first_handle ∷ [])
remove_connection_in_loop-Erased_example =
    remove_connection_in_loop-Erased first_handle one_connection one_connection-IsServer
