-- ===== src/Tcp/Server.antt =====
-- src/muduo_core/TcpServer.h and TcpServer.cc. The order of the C++ map of connections is left open;
-- here it is the order of arrival. `int` identifiers are 32-bit words, in two's complement.
pub mod Differs
pub mod Names
use my_tiny_network_library.Base.{
  ℕ, suc, ◌+◌, ◌-◌, ◌%◌, ◌^◌, ltb, Bool, List, [], ◌∷◌, ◌++◌, Option, none, some, if◌then◌else◌,
  ◌==◌, Bytes, codes, equal, take, decimal,
}
use my_tiny_network_library.Tcp.Pool.{Pool, get_next_loop}
use my_tiny_network_library.Tcp.Pool

-- What the server knows of a TcpConnection that it has made.
pub record Handle (Loop : Type 0) : Type 0 where
  pub loop : Loop
  pub name : Bytes
  pub sockfd : ℕ

pub record Server (Loop : Type 0) : Type 0 where
  pub name : Bytes
  pub ip_port : Bytes
  pub pool : Pool Loop
  pub started : ℕ
  pub next_conn_id : ℕ
  pub connections : List (Bytes × Handle Loop)

-- What a call does outside: `loop_->runInLoop` and the functors for the loop of a connection.
pub data Effect (Loop : Type 0) : Type 0 where
  listens : Effect Loop
  runs_established queues_destroyed runs_destroyed : Handle Loop → Effect Loop
  runs_removal : Handle Loop → Effect Loop

-- what "%d" makes of an `int`
abbrev pub int_text : ℕ → Bytes
int_text n = if ltb n (2 ^ 31) then decimal n else codes "-" ++ decimal (2 ^ 32 - n)

-- `snprintf` into `buf`, which holds 63 characters, behind the name of the server
unfoldable pub conn_name : Bytes → Bytes → ℕ → Bytes
conn_name name ip_port id = name ++ take 63 (codes "-" ++ (ip_port ++ (codes "#" ++ int_text id)))

module _ {Loop : Type 0} where
  unfoldable pub init : Loop → Bytes → Bytes → Server Loop
  init loop ip_port name = record {
    name = name;
    ip_port = ip_port;
    pool = Pool.init loop name;
    started = 0;
    next_conn_id = 1;
    connections = [];
  }

  unfoldable pub set_thread_num : ℕ → Server Loop → Server Loop
  set_thread_num num_threads s = record s { pool = record s.pool { num_threads = num_threads } }

  unfoldable pub start :
      (Bytes → Loop) → Bool → Server Loop → Option Loop × Server Loop × List (Effect Loop)
  start start_loop has_callback s =
      let s' = record s { started = suc s.started } in
      let (called, pool) = Pool.start start_loop has_callback s.pool in
      if s.started == 0 then (called, record s' { pool = pool }, listens ∷ []) else (none, s', [])

  -- `connections_[name] = conn`
  unfoldable pub put : Bytes → Handle Loop → List (Bytes × Handle Loop) → List (Bytes × Handle Loop)
  put name conn [] = (name, conn) ∷ []
  put name conn ((key, old) ∷ others) =
      let rest = put name conn others in
      if equal name key then (key, conn) ∷ others else (key, old) ∷ rest

  -- `connections_.erase(name)`
  unfoldable pub erase : Bytes → List (Bytes × Handle Loop) → List (Bytes × Handle Loop)
  erase name [] = []
  erase name ((key, conn) ∷ others) =
      let rest = erase name others in if equal name key then rest else (key, conn) ∷ rest

  -- `newConnection` with the loop that the pool has chosen
  abbrev pub accept :
      ℕ → Server Loop → Option (Loop × Pool Loop) → Option (Server Loop × List (Effect Loop))
  accept sockfd s none = none
  accept sockfd s (some (loop, pool)) =
      let name = conn_name s.name s.ip_port s.next_conn_id in
      let conn : Handle Loop = record { loop = loop; name = name; sockfd = sockfd } in
      some (
        record s {
          pool = pool;
          next_conn_id = (s.next_conn_id + 1) % 2 ^ 32;
          connections = put name conn s.connections;
        },
        runs_established conn ∷ [],
      )

  unfoldable pub new_connection : ℕ → Server Loop → Option (Server Loop × List (Effect Loop))
  new_connection sockfd s = accept sockfd s (get_next_loop s.pool)

  unfoldable pub remove_connection : Handle Loop → Server Loop → Server Loop × List (Effect Loop)
  remove_connection conn s = (s, runs_removal conn ∷ [])

  unfoldable pub remove_connection_in_loop :
      Handle Loop → Server Loop → Server Loop × List (Effect Loop)
  remove_connection_in_loop conn s =
      (record s { connections = erase conn.name s.connections }, queues_destroyed conn ∷ [])

  -- `~TcpServer`, for the connections that are left
  unfoldable pub destroy_all : List (Bytes × Handle Loop) → List (Effect Loop)
  destroy_all [] = []
  destroy_all ((name, conn) ∷ others) = runs_destroyed conn ∷ destroy_all others
