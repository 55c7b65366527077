-- ===== src/Traffic.antt =====
-- The traffic rules of src/wtsl_core/slal/slb/wtsl_core_slb_qos_core.c: requests in JSON become tc
-- and iptables commands, commands that worked are recorded, and a switch removes and restores them.
-- Commands are taken to stay below the size of their buffer, which the source does not test.

mod Fields
mod Tc
mod Iptables
pub mod Snapshot
mod Switch
mod Crash
pub mod Sample
mod Examples
unfoldable pub use Fields.*
unfoldable pub use Tc.*
unfoldable pub use Iptables.*
use wtsl_app.Base.{
  ℕ, ◌+◌, ◌-◌, String, Bool, true, false, not, ◌&&◌, ◌||◌, Option, none, some, List, [], ◌∷◌, ◌++◌,
  ltb, leb, ◌==◌, if◌then◌else◌, length, take, drop, Text, codes, text_eq, starts_with, contains,
  c_string,
}

abbrev pub max_snapshot_rules : ℕ
max_snapshot_rules = 256

-- `snapshot_rules` up to `snapshot_count`: the cells behind are not read.
pub record QosState : Type 0 where
  pub enabled : Bool
  pub snapshot_rules : List Text
  pub default_device : Text

pub qos_init_state : Text → QosState
qos_init_state default_dev = record {
  enabled = true;
  snapshot_rules = [];
  default_device = take 31 default_dev;
}

abbrev pub recorded : Text → List Text → Bool
recorded cmd [] = false
recorded cmd (r ∷ rules) = text_eq r cmd || recorded cmd rules

pub record_rule : Text → QosState → QosState
record_rule cmd s =
    let added : QosState = record s {
      snapshot_rules = s.snapshot_rules ++ take (max_cmd_len - 1) cmd ∷ [];
    } in
    if leb max_snapshot_rules (length s.snapshot_rules)
    then s
    else (if recorded cmd s.snapshot_rules then s else added)

-- Whether `ex_command` gives 0: `works` is what the shell reports.
pub ex_command : Text → Bool → Bool
ex_command cmd works = not (leb (max_cmd_len + 8) (length cmd + 5)) && works

-- A command is run, and recorded if it worked and `records`: what the request returns, and the
-- state. none is a crash.
pub run_command : Bool → Bool → Option Text → QosState → Option (Bool × QosState)
unfolding ex_command record_rule
run_command records works none s = none
run_command records works (some cmd) s =
    let done = ex_command cmd works in some (done, if done && records then record_rule cmd s else s)

module _ {J : Type 0} (json : Json J) where
  unfoldable pub tc_handle_request : Text → Text → J → Bool → QosState → Option (Bool × QosState)
  unfolding tc_command run_command
  tc_handle_request action obj_type params works s =
      run_command (is action "add" || is action "replace") works
        (tc_command json action obj_type params s.default_device) s

  pub iptables_handle_request : Text → Text → J → Bool → QosState → Option (Bool × QosState)
  unfolding ipt_command run_command
  iptables_handle_request action chain params works s =
      run_command (is action "add" || is action "insert" || is action "replace") works
        (ipt_command json action chain params s.default_device) s

-- `memcpy(strstr(cmd, old), "iptables -D", 13)`: the terminator of the literal is copied too, so the
-- command ends there.
abbrev pub cut_to_delete : Text → Text → Text
cut_to_delete old [] = []
cut_to_delete old (c ∷ s) =
    let rest = c ∷ cut_to_delete old s in
    if starts_with old (c ∷ s) then codes "iptables -D" else rest

-- What is run for a recorded rule when the switch goes off; none is a rule that is passed over.
pub clean_command : Text → Option Text
clean_command rule =
    if not (contains (codes "iptables") rule)
    then none
    else (if contains (codes "iptables -A") rule
        then some (cut_to_delete (codes "iptables -A") rule)
        else (if contains (codes "iptables -I") rule
            then some (cut_to_delete (codes "iptables -I") rule)
            else (if contains (codes "iptables -R") rule then none else some rule)))

abbrev with_command : Option Text → List Text → List Text
with_command none cmds = cmds
with_command (some cmd) cmds = cmd ∷ cmds

pub clean_commands : List Text → List Text
unfolding clean_command
clean_commands [] = []
clean_commands (rule ∷ rules) = with_command (clean_command rule) (clean_commands rules)

abbrev tc_clean : Text → Text → Text
tc_clean dev what =
    take (max_cmd_len - 1) (codes "tc qdisc del dev " ++ (dev ++ (what ++ codes " 2>/dev/null")))

-- The commands that the switch runs, in their order, and the state.
pub qos_toggle_switch : Bool → QosState → List Text × QosState
unfolding clean_commands
qos_toggle_switch enable s =
    let off : List Text × QosState = (
      tc_clean s.default_device (codes " root")
          ∷ tc_clean s.default_device (codes " ingress")
          ∷ clean_commands s.snapshot_rules,
      record s { enabled = false },
    ) in
    let on : List Text × QosState = (s.snapshot_rules, record s { enabled = true }) in
    if enable then (if s.enabled then ([], s) else on) else (if s.enabled then off else ([], s))
