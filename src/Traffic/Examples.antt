-- ===== src/Traffic/Examples.antt =====
-- Requests at concrete inputs, with a small JSON: the theorems' hypotheses hold there, and tests.
use wtsl_app.Base.{◌≡◌, refl, true, false, some, [], ◌∷◌, arith, codes}
use wtsl_app.Traffic.{QosState, tc_command, ipt_command, tc_handle_request, qos_toggle_switch}
use wtsl_app.Traffic.Sample.{Value, text, number, object, json}
use wtsl_app.Traffic.Snapshot.{
  Steps, stay, onward, tc_step, switch_step, IsSnapshot, Steps-IsSnapshot,
}

abbrev start : QosState
start = record { enabled = true; snapshot_rules = []; default_device = codes "br0" }

abbrev shaping : Value
shaping = object ((codes "kind", text (codes "htb")) ∷ (codes "handle", text (codes "1:")) ∷ [])

abbrev shaped : QosState
shaped = record start { snapshot_rules = codes "tc qdisc add dev br0 root handle 1: htb" ∷ [] }

tc_command_test :
    tc_command json (codes "add") (codes "qdisc") shaping start.default_device
    ≡ some (codes "tc qdisc add dev br0 root handle 1: htb")
unfolding tc_command
tc_command_test = refl

tc_handle_request_test :
    tc_handle_request json (codes "add") (codes "qdisc") shaping true start ≡ some (true, shaped)
unfolding tc_handle_request
tc_handle_request_test = refl

shaping-Steps : Steps json start (qos_toggle_switch false shaped).1
unfolding tc_command
shaping-Steps =
    onward
      (tc_step (codes "add") (codes "qdisc") shaping true true (omega arith) tc_handle_request_test)
      (onward (switch_step false) stay)

start-IsSnapshot : IsSnapshot start
start-IsSnapshot = record { bounded = omega arith; distinct = tt }

Steps-IsSnapshot_example : IsSnapshot (qos_toggle_switch false shaped).1
Steps-IsSnapshot_example = Steps-IsSnapshot json start _ shaping-Steps start-IsSnapshot

abbrev port : Value
port = object ((codes "protocol", text (codes "tcp")) ∷ [])

ipt_command_test :
    ipt_command json (codes "add") (codes "INPUT") port start.default_device
    ≡ some (codes "iptables -A INPUT -p tcp -i br0")
unfolding ipt_command
ipt_command_test = refl

abbrev numbered : Value
numbered = object ((codes "parent", number (codes "1")) ∷ [])
