-- ===== src/Nodes/Service.antt =====
-- The node service of src/wtsl_core/slal/node/wtsl_core_node_service.c: its packets, and what a
-- received heartbeat does to the list of known nodes. The layout of the structures is the
-- compiler's: the bytes of a header, the type in a header and the node information in a payload are
-- parameters, with the sizes of the structures. What malloc and time give is part of a message.
pub mod Known
pub mod Heard
pub mod Active
pub mod Packets
use wtsl_app.Base.{
  ℕ, zero, suc, ◌+◌, ◌-◌, Bool, true, false, not, Option, none, some, List, [], ◌∷◌, ◌++◌, ◌==◌,
  if◌then◌else◌, leb, ◌&&◌, length, take, drop, replicate, text_eq,
}
use wtsl_app.Nodes.{
  Ptr, NodeInfo, WtslNode, NodeList, Run, ◌>>=◌, load, find_wtsl_node_by_id, set_node,
  add_wtsl_node_to_list_tail,
}

-- The constants of the file.
abbrev pub buf_size : ℕ
buf_size = 2048

-- The header in a buffer of zeros, a byte that stays 0, and the data. None if the data is too long:
-- then nothing is sent.
pub send_data_to_addr : List ℕ → List ℕ → Option (List ℕ)
send_data_to_addr header content =
    if leb (2048 - length header - 1) (length content) then none else some (header ++ 0 ∷ content)

-- What recvfrom leaves in the zeroed buffer of recv_thread.
pub receive : List ℕ → List ℕ
receive packet =
    let got : List ℕ = take (buf_size - 1) packet in got ++ replicate (buf_size - length got) 0

-- Whether create_new_wtsl_node and add_wtsl_node_to_list_tail get memory, and the time.
pub record Surroundings : Type 0 where
  pub node_memory : Bool
  pub interface_memory : Bool
  pub fresh : Ptr
  pub now : ℕ

-- What a round does with the node of its id: goes on if there is none or if it fails the test.
abbrev round :
    {A : Type 0} → (WtslNode → Bool) → (Ptr → Run A) → Run A → NodeList → Option Ptr → Run A
round test hit rest l none = rest
round test hit rest l (some p) = load l.heap p >>= λ c. if test c.node then hit p else rest

-- The loop of both functions below, with the rounds from i on, of which there are k. A node that
-- passes the test ends it.
unfoldable pub id_loop :
    {A : Type 0} → (WtslNode → Bool) → (Ptr → Run A) → Run A → ℕ → ℕ → NodeList → Run A
id_loop test hit miss zero i l = miss
id_loop test hit miss (suc k) i l =
    let rest = id_loop test hit miss k (i + 1) l in
    find_wtsl_node_by_id l i >>= round test hit rest l

abbrev pub known_mac : NodeInfo → WtslNode → Bool
known_mac info n = text_eq n.info.mac info.mac

abbrev pub known_addr : List ℕ → WtslNode → Bool
known_addr addr n = text_eq n.addr addr

pub is_node_not_exist : Option NodeList → NodeInfo → Run Bool
unfolding id_loop
is_node_not_exist none info = Run.value true
is_node_not_exist (some l) info =
    id_loop (known_mac info) (λ p. Run.value false) (Run.value true) l.node_count 0 l

abbrev pub refresh : ℕ → NodeInfo → WtslNode → WtslNode
refresh now info n = record n { last_heartbeat = now; active = true; info = info }

pub update_heartbeat : Option NodeList → List ℕ → NodeInfo → ℕ → Run (Option NodeList)
unfolding id_loop set_node
update_heartbeat none addr info now = Run.value none
update_heartbeat (some l) addr info now =
    id_loop (known_addr addr) (λ p. set_node l p (refresh now info)) (Run.value l) l.node_count 0 l
    >>= λ l'. Run.value (some l')

-- Whether create_new_wtsl_node gives a node.
abbrev creates : Surroundings → Bool
creates s = s.node_memory && s.interface_memory

abbrev pub new_node : ℕ → List ℕ → NodeInfo → ℕ → WtslNode
new_node id addr info now = record {
  id = id;
  active = true;
  last_heartbeat = now;
  addr = addr;
  info = info;
}

abbrev add_new : Option NodeList → List ℕ → NodeInfo → Surroundings → Run (Option NodeList)
add_new none addr info s = Run.fault
add_new (some l) addr info s =
    let added : Run (Option NodeList) =
      add_wtsl_node_to_list_tail l s.fresh (new_node l.node_count addr info s.now) >>= λ r.
      Run.value (some r.1) in
    if creates s then added else Run.fault

abbrev handle : Option NodeList → List ℕ → NodeInfo → Surroundings → Bool → Run (Option NodeList)
handle list addr info s absent =
    if absent then add_new list addr info s else update_heartbeat list addr info s.now

unfoldable pub parse_data_heartbeat :
    Option NodeList → List ℕ → NodeInfo → Surroundings → Run (Option NodeList)
unfolding is_node_not_exist update_heartbeat add_wtsl_node_to_list_tail
parse_data_heartbeat list addr info s = is_node_not_exist list info >>= handle list addr info s

-- The bytes of the two structures, as the compiler lays them out.
pub record Layout : Type 0 where
  pub header_size : ℕ
  pub info_size : ℕ
  pub type_of : List ℕ → ℕ
  pub info_of : List ℕ → NodeInfo

-- The list after a packet, and whether an answer is sent.
unfoldable pub parse_data :
    Layout → Option NodeList → List ℕ → List ℕ → Surroundings → Run (Option NodeList × Bool)
unfolding parse_data_heartbeat
parse_data y list addr buffer s =
    let type = y.type_of (take y.header_size buffer) in
    let info = y.info_of (take y.info_size (drop (y.header_size + 1) buffer)) in
    let heard = parse_data_heartbeat list addr info s in
    if type == 0
    then (heard >>= λ list'. Run.value (list', true))
    else (if type == 1
        then (heard >>= λ list'. Run.value (list', false))
        else Run.value (list, false))
