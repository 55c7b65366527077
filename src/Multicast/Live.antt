-- ===== src/Multicast/Live.antt =====
-- The table of splink_mc.c as an abstract list: the live cells of the array, what a heartbeat and
-- the removal of silent peers mean for that list, and the well-formedness of the array.
use wtsl_app.Base.{
  ℕ, ◌+◌, ◌≡◌, Bool, true, false, Option, none, some, List, [], ◌∷◌, ◌++◌, length, text_eq, Text,
  if◌then◌else◌, ltb, leb,
}
use wtsl_app.Multicast.{McNodeInfo, McTable, max_nodes, node_timeout}

-- The first `mc_node_count` cells of the array are `live`.
pub record IsTable (t : McTable) (live : List McNodeInfo) : Type 0 where
  pub dead : List McNodeInfo
  pub cells : t.mc_nodes ≡ live ++ dead
  pub counted : t.mc_node_count ≡ length live
  pub total : length live + length dead ≡ max_nodes

abbrev pub has_ip : Text → List McNodeInfo → Bool
has_ip ip [] = false
has_ip ip (n ∷ ns) = if text_eq n.ip ip then true else has_ip ip ns

-- When a peer was last heard of.
abbrev pub last_seen : Text → List McNodeInfo → Option ℕ
last_seen ip [] = none
last_seen ip (n ∷ ns) = if text_eq n.ip ip then some n.last_heartbeat else last_seen ip ns

-- No address stands twice.
abbrev pub Distinct : List McNodeInfo → Type 0
Distinct [] = Unit
Distinct (n ∷ ns) = (has_ip n.ip ns ≡ false) × Distinct ns

abbrev pub refreshed : Text → ℕ → List McNodeInfo → List McNodeInfo
refreshed ip now [] = []
refreshed ip now (n ∷ ns) =
    if text_eq n.ip ip then record n { last_heartbeat = now } ∷ ns else n ∷ refreshed ip now ns

-- A heartbeat refreshes the entry of its address, or adds one while there is room.
abbrev pub touched : Text → ℕ → List McNodeInfo → List McNodeInfo
touched ip now ns =
    if has_ip ip ns
    then refreshed ip now ns
    else if ltb (length ns) max_nodes
    then ns ++ record { ip = ip; last_heartbeat = now } ∷ []
    else ns

-- The peers that were heard of in the last 15 seconds.
abbrev pub survivors : ℕ → List McNodeInfo → List McNodeInfo
survivors now [] = []
survivors now (n ∷ ns) =
    if leb now (n.last_heartbeat + node_timeout) then n ∷ survivors now ns else survivors now ns
