-- ===== src/Multicast/Examples.antt =====
-- The multicast table at concrete inputs: the theorems' hypotheses hold there, and tests.
use wtsl_app.Base.{ℕ, ◌≡◌, refl, true, false, List, [], ◌∷◌, length, replicate, Text, codes, arith}
use wtsl_app.Multicast.{
  McNodeInfo, McTable, blank, no_data, packet, Service, update_node_list, clean_timeout_mc_nodes,
  is_heartbeat,
}
use wtsl_app.Multicast.Live.{IsTable, survivors, touched}
use wtsl_app.Multicast.Clean.{clean-survivors}
use wtsl_app.Multicast.Update.{update-touched}
use wtsl_app.Multicast.Rounds.{IsPeerTable, ServiceTurn, run, run-IsPeerTable, Spaced, run-Spaced}

abbrev peer : Text → ℕ → McNodeInfo
peer ip t = record { ip = ip; last_heartbeat = t }

abbrev two_peers : List McNodeInfo
two_peers = peer (codes "10.0.0.1") 100 ∷ peer (codes "10.0.0.2") 120 ∷ []

abbrev unused : List McNodeInfo
unused = replicate 1022 blank

length-unused : length unused ≡ 1022
length-unused = refl

abbrev table : McTable
table = record {
  mc_nodes = peer (codes "10.0.0.1") 100 ∷ peer (codes "10.0.0.2") 120 ∷ unused;
  mc_node_count = 2;
}

table-IsTable : IsTable table two_peers
table-IsTable = record { dead = unused; cells = refl; counted = refl; total = refl }

clean-survivors_example : IsTable (clean_timeout_mc_nodes table 130) (survivors 130 two_peers)
clean-survivors_example = clean-survivors 130 table-IsTable

survivors_test : survivors 130 two_peers ≡ peer (codes "10.0.0.2") 120 ∷ []
survivors_test = refl

update-touched_example :
    IsTable
      (update_node_list table (codes "10.0.0.3") 130)
      (touched (codes "10.0.0.3") 130 two_peers)
update-touched_example = update-touched (codes "10.0.0.3") 130 (omega arith) table-IsTable

table-IsPeerTable : IsPeerTable table
table-IsPeerTable = record {
  live = two_peers;
  array = table-IsTable;
  distinct = (refl, (refl, tt));
}

abbrev start : Service
start = record { table = table; last_send_time = 0; sent = [] }

abbrev turns : List ServiceTurn
turns =
    record { now = 130; poll = packet (codes "10.0.0.3") (codes "HEARTBEAT:130"); later = 131 }
    ∷ record { now = 140; poll = no_data; later = 141 }
    ∷ record { now = 190; poll = no_data; later = 191 }
    ∷ []

run-IsPeerTable_example : IsPeerTable (run start turns).table
run-IsPeerTable_example = run-IsPeerTable start turns (omega arith) table-IsPeerTable

run-Spaced_example : Spaced (run start turns).last_send_time (run start turns).sent
run-Spaced_example = run-Spaced start turns tt

is_heartbeat_test : is_heartbeat (codes "HEARTBEAT:17") ≡ true
unfolding is_heartbeat
is_heartbeat_test = refl

is_heartbeat_other : is_heartbeat (codes "HELLO") ≡ false
unfolding is_heartbeat
is_heartbeat_other = refl
