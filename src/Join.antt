-- ===== src/Join.antt =====
-- The thread that joins a T node to a network: wtsl_core_splink_auto_join_net of
-- src/wtsl_core/slal/wtsl_core_splink_state.c. It tries the three stored MAC addresses in turn and
-- begins with the first one after a link was lost. What the waits find is the input of a turn; the
-- scan and the join itself are commands to the driver.
mod Cycle
use wtsl_app.Base.{
  ℕ, ◌+◌, Bool, true, false, Option, none, some, List, [], ◌∷◌, ◌==◌, if◌then◌else◌,
}

-- A turn of the loop while the node is a T node: whether it waited because of a link, and the flag
-- auto_join_net_flag behind the waits.
pub record Turn : Type 0 where
  pub waited_linked : Bool
  pub auto_join_net_flag : Bool

abbrev pub next_idx : ℕ → ℕ
next_idx idx = if idx == 2 then 0 else idx + 1

-- The index in auto_join_net_mac that is tried, if one is, and the next index.
pub join_turn : ℕ → Turn → Option ℕ × ℕ
join_turn idx t =
    let from : ℕ = if t.waited_linked then 0 else idx in
    if t.auto_join_net_flag then (some from, next_idx from) else (none, from)

abbrev tried : Option ℕ → List ℕ → List ℕ
tried none rest = rest
tried (some i) rest = i ∷ rest

-- The indices that the turns try, in order.
pub wtsl_core_splink_auto_join_net : ℕ → List Turn → List ℕ
unfolding join_turn
wtsl_core_splink_auto_join_net idx [] = []
wtsl_core_splink_auto_join_net idx (t ∷ turns) =
    let turn = join_turn idx t in tried turn.0 (wtsl_core_splink_auto_join_net turn.1 turns)
