-- ===== src/Nodes/Examples.antt =====
-- Examples and tests of the list of known nodes and of the node service.
use wtsl_app.Base.{
  ℕ, true, false, none, some, List, [], ◌∷◌, ◌≡◌, ◌≤◌, get_or, refl, arith, length, codes,
}
use wtsl_app.Nodes.{
  Ptr, null, NodeInfo, WtslNode, cell, Heap, write, NodeList, Run, delete_wtsl_node_by_id,
  find_wtsl_node_by_id,
}
use wtsl_app.Nodes.Links.{Cells, IsNodeList, ne_of_false}
use wtsl_app.Nodes.Search.{change_first}
use wtsl_app.Nodes.Remove.{delete-without, IsDeleted}
use wtsl_app.Nodes.Service.{
  Surroundings, Layout, known_mac, known_addr, new_node, parse_data_heartbeat, send_data_to_addr,
  receive, parse_data,
}
use wtsl_app.Nodes.Service.Known.{Numbered, any_node}
use wtsl_app.Nodes.Service.Active.{AllActive, hear_all-IsHeard, IsHeard}
use wtsl_app.Nodes.Service.Heard.{Heartbeat, HaveMemory, hear_all, heard_all}
use wtsl_app.Nodes.Service.Packets.{answered, request-answered}

abbrev mac_a : List ℕ
mac_a = codes "aa:01"

abbrev mac_b : List ℕ
mac_b = codes "bb:02"

abbrev info_of_mac : List ℕ → NodeInfo
info_of_mac mac = record { mac = mac; others = [] }

abbrev node_a : WtslNode
node_a = new_node 0 (1 ∷ []) (info_of_mac mac_a) 10

abbrev node_b : WtslNode
node_b = new_node 1 (2 ∷ []) (info_of_mac mac_b) 20

abbrev node_c : WtslNode
node_c = new_node 2 (3 ∷ []) (info_of_mac (codes "cc:03")) 30

abbrev no_cells : Heap
no_cells p = none

abbrev two_cells : Cells
two_cells = (5, node_a) ∷ (7, node_b) ∷ []

abbrev two_nodes : NodeList
two_nodes = record {
  heap = write (write no_cells 5 (some (cell node_a 7))) 7 (some (cell node_b null));
  head = 5;
  tail = 7;
  node_count = 2;
}

two_nodes-IsNodeList : IsNodeList two_nodes two_cells
two_nodes-IsNodeList = record {
  links = (
    refl,
    ne_of_false 5 0 refl,
    (ne_of_false 5 7 refl, tt),
    (7, refl, (refl, ne_of_false 7 0 refl, tt, (null, refl, refl))),
  );
  tail_is_last = refl;
  count_is_length = refl;
}

two_cells-Numbered : Numbered 0 two_cells
unfolding Numbered
two_cells-Numbered = (refl, (refl, tt))

delete-without_example :
    (l' : NodeList) × IsDeleted 1 two_cells (delete_wtsl_node_by_id two_nodes 1) l'
delete-without_example = delete-without 1 two_nodes two_cells two_nodes-IsNodeList

abbrev memory : ℕ → Ptr → Surroundings
memory now fresh = record { node_memory = true; interface_memory = true; fresh = fresh; now = now }

mac_b_known : any_node (known_mac (info_of_mac mac_b)) two_cells ≡ true
unfolding any_node
mac_b_known = refl

address_unknown : any_node (known_addr (4 ∷ [])) two_cells ≡ false
unfolding any_node
address_unknown = refl

abbrev beat_of : List ℕ → List ℕ → ℕ → Ptr → Heartbeat
beat_of addr mac now fresh = record { addr = addr; info = info_of_mac mac; s = memory now fresh }

-- The node itself, which its service adds first.
abbrev own_cells : Cells
own_cells = (3, new_node 0 [] (info_of_mac (codes "00:00")) 1) ∷ []

abbrev own_list : NodeList
own_list = record {
  heap = write no_cells 3 (some (cell (new_node 0 [] (info_of_mac (codes "00:00")) 1) null));
  head = 3;
  tail = 3;
  node_count = 1;
}

own_list-IsNodeList : IsNodeList own_list own_cells
own_list-IsNodeList = record {
  links = (refl, ne_of_false 3 0 refl, tt, (null, refl, refl));
  tail_is_last = refl;
  count_is_length = refl;
}

own_cells-Numbered : Numbered 0 own_cells
unfolding Numbered
own_cells-Numbered = (refl, tt)

own_cells-AllActive : AllActive own_cells
unfolding AllActive
own_cells-AllActive = (refl, tt)

abbrev beats : List Heartbeat
beats =
    beat_of (1 ∷ []) mac_a 10 5 ∷ beat_of (2 ∷ []) mac_b 20 7 ∷ beat_of (1 ∷ []) mac_a 500 9 ∷ []

beats-HaveMemory : HaveMemory beats own_cells
unfolding HaveMemory any_node change_first
beats-HaveMemory = (
  (refl, refl),
  (ne_of_false 5 3 refl, tt),
  (
    (refl, refl),
    (ne_of_false 7 3 refl, (ne_of_false 7 5 refl, tt)),
    ((refl, refl), (ne_of_false 9 3 refl, (ne_of_false 9 5 refl, (ne_of_false 9 7 refl, tt))), tt),
  ),
)

hear_all-IsHeard_example :
    (l' : NodeList) × (hear_all (some own_list) beats ≡ Run.value (some l'))
    × IsHeard beats own_cells l'
hear_all-IsHeard_example =
    hear_all-IsHeard beats own_list own_cells own_list-IsNodeList own_cells-Numbered
      own_cells-AllActive beats-HaveMemory

-- A layout with a header of one byte, the type, and an information of three bytes, the MAC address.
abbrev small : Layout
small = record {
  header_size = 1;
  info_size = 3;
  type_of = λ header. get_or header 0 9;
  info_of = info_of_mac;
}

abbrev three_bytes : List ℕ
three_bytes = 7 ∷ 8 ∷ 9 ∷ []

request-answered_example :
    (packet : List ℕ) × (send_data_to_addr (0 ∷ []) three_bytes ≡ some packet)
    × (length packet ≤ 2047)
    × (parse_data small (some two_nodes) (4 ∷ []) (receive packet) (memory 99 9)
        ≡ answered (some two_nodes) (4 ∷ []) small three_bytes (memory 99 9))
request-answered_example =
    request-answered small (0 ∷ []) three_bytes (some two_nodes) (4 ∷ []) (memory 99 9)
      (record { header_length = refl; content_length = refl; fits = omega arith }) refl

-- Two devices with their own addresses and MAC addresses; then the second takes the first one's
-- address. Its heartbeat overwrites the first entry, and its MAC address stands in two entries.
abbrev taken : List Heartbeat
taken = beat_of (1 ∷ []) mac_a 10 5 ∷ beat_of (2 ∷ []) mac_b 20 7 ∷ beat_of (1 ∷ []) mac_b 30 9 ∷ []

taken_address :
    heard_all taken []
    ≡ (5, new_node 0 (1 ∷ []) (info_of_mac mac_b) 30)
      ∷ (7, new_node 1 (2 ∷ []) (info_of_mac mac_b) 20)
      ∷ []
unfolding heard_all any_node change_first
taken_address = refl

-- Without memory for a new node its NULL is written to.
no_memory :
    parse_data_heartbeat
      (some two_nodes)
      (4 ∷ [])
      (info_of_mac (codes "cc"))
      (record (memory 1 9) { node_memory = false })
    ≡ Run.fault
unfolding parse_data_heartbeat find_wtsl_node_by_id
no_memory = refl
