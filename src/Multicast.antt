-- ===== src/Multicast.antt =====
-- The table of peer G nodes of src/wtsl_core/slal/wtsl_core_splink_mc.c: the array `mc_nodes` with
-- its count, the update on a heartbeat, the removal of silent peers, and one round of the service
-- loop. The array keeps its 1024 cells; its first `mc_node_count` cells are the table. Times are
-- seconds, so `difftime(a, b) > k` is `b + k < a`. Sockets and the clock are inputs of a round.
pub mod Live
mod Shift
pub mod Clean
pub mod Update
pub mod Rounds
mod Examples
use wtsl_app.Base.{
  ℕ, zero, suc, ◌+◌, ◌-◌, String, Bool, Option, none, some, List, [], ◌∷◌, ◌++◌, ltb, leb, ◌==◌,
  if◌then◌else◌, length, get_or, set, take, Text, codes, text_eq, starts_with, c_string,
}

pub record McNodeInfo : Type 0 where
  pub ip : Text
  pub last_heartbeat : ℕ

pub record McTable : Type 0 where
  pub mc_nodes : List McNodeInfo
  pub mc_node_count : ℕ

abbrev pub max_nodes : ℕ
max_nodes = 1024

abbrev pub node_timeout : ℕ
node_timeout = 15

abbrev pub heartbeat_interval : ℕ
heartbeat_interval = 60

-- `INET_ADDRSTRLEN - 1`, the bytes that `strncpy` copies.
abbrev pub ip_chars : ℕ
ip_chars = 15

-- A cell of the zero-initialised array.
abbrev pub blank : McNodeInfo
blank = record { ip = []; last_heartbeat = 0 }

abbrev pub cell : List McNodeInfo → ℕ → McNodeInfo
cell nodes i = get_or nodes i blank

-- The first loop of `update_node_list`, with the rounds left: `none` when no cell has the address.
refresh_loop : ℕ → ℕ → List McNodeInfo → Text → ℕ → Option (List McNodeInfo)
refresh_loop zero i nodes ip now = none
refresh_loop (suc k) i nodes ip now =
    let rest = refresh_loop k (i + 1) nodes ip now in
    if text_eq (cell nodes i).ip ip
    then some (set nodes i (record (cell nodes i) { last_heartbeat = now }))
    else rest

add_node : McTable → Text → ℕ → McTable
add_node t ip now =
    if ltb t.mc_node_count max_nodes
    then record {
      mc_nodes =
          set t.mc_nodes t.mc_node_count (record { ip = take ip_chars ip; last_heartbeat = now });
      mc_node_count = t.mc_node_count + 1;
    }
    else t

-- The return inside the first loop, or what stands behind it.
abbrev store_or_add : McTable → Text → ℕ → Option (List McNodeInfo) → McTable
store_or_add t ip now (some nodes) = record t { mc_nodes = nodes }
store_or_add t ip now none = add_node t ip now

pub update_node_list : McTable → Text → ℕ → McTable
unfolding refresh_loop add_node
update_node_list t ip now = store_or_add t ip now (refresh_loop t.mc_node_count 0 t.mc_nodes ip now)

pub timed_out : ℕ → McNodeInfo → Bool
timed_out now n = ltb (n.last_heartbeat + node_timeout) now

-- The inner loop of `clean_timeout_mc_nodes`, with the rounds left.
shift_loop : ℕ → ℕ → List McNodeInfo → List McNodeInfo
shift_loop zero j nodes = nodes
shift_loop (suc k) j nodes = shift_loop k (j + 1) (set nodes j (cell nodes (j + 1)))

pub remove_node : McTable → ℕ → McTable
unfolding shift_loop
remove_node t i = record {
  mc_nodes = shift_loop (t.mc_node_count - 1 - i) i t.mc_nodes;
  mc_node_count = t.mc_node_count - 1;
}

-- The outer loop on fuel. After a removal `i--` and `i++` leave the index where it was.
clean_loop : ℕ → ℕ → ℕ → McTable → McTable
clean_loop zero i now t = t
clean_loop (suc fuel) i now t =
    let gone = clean_loop fuel i now (remove_node t i) in
    let kept = clean_loop fuel (i + 1) now t in
    if ltb i t.mc_node_count then (if timed_out now (cell t.mc_nodes i) then gone else kept) else t

pub clean_timeout_mc_nodes : McTable → ℕ → McTable
unfolding clean_loop remove_node timed_out
clean_timeout_mc_nodes t now = clean_loop t.mc_node_count 0 now t

-- What `select` and `recvfrom` report to `recv_heartbeats`.
pub data Poll : Type 0 where
  select_failed : Poll
  no_data : Poll
  recv_failed : Poll
  packet : Text → List ℕ → Poll

-- At most `sizeof(buffer) - 1` bytes of a packet are read.
pub is_heartbeat : List ℕ → Bool
unfolding c_string
is_heartbeat bytes = starts_with (codes "HEARTBEAT:") (c_string (take 127 bytes))

pub recv_heartbeats : McTable → Poll → ℕ → McTable
recv_heartbeats t select_failed now = t
recv_heartbeats t no_data now = t
recv_heartbeats t recv_failed now = t
recv_heartbeats t (packet ip bytes) now =
    if is_heartbeat bytes then update_node_list t ip now else t

pub record Service : Type 0 where
  pub table : McTable
  pub last_send_time : ℕ
  -- the times at which heartbeats were sent, the last one first
  pub sent : List ℕ

-- One round of the loop of `wtsl_core_splink_gnode_service`: the clock at its start, what the
-- socket reports, and the clock when a packet is stored.
pub service_round : Service → ℕ → Poll → ℕ → Service
service_round s now poll later =
    let beat : Service = record {
      table = clean_timeout_mc_nodes s.table now;
      last_send_time = now;
      sent = now ∷ s.sent;
    } in
    let s' = if leb (s.last_send_time + heartbeat_interval) now then beat else s in
    record s' { table = recv_heartbeats s'.table poll later }
