-- ===== src/Access/Examples.antt =====
-- Requests at concrete inputs: the theorems' hypotheses hold there, and tests.
use wtsl_app.Base.{◌≡◌, refl, ◌<◌, true, none, [], ◌∷◌, Text, codes, arith, length}
use wtsl_app.Traffic.Sample.{Value, text, number, object, json}
use wtsl_app.Access.{AclState, build_iptables_cmd, acl_handle_request}
use wtsl_app.Access.Rules.{IsAcl, request-IsAcl}

abbrev web : Value
web = object (
    (codes "protocol", text (codes "tcp"))
    ∷ (codes "dest_port", text (codes "80"))
    ∷ (codes "target", text (codes "ACCEPT"))
    ∷ [])

abbrev web_rule : Text
web_rule = codes "iptables -w -A FORWARD -p tcp -m tcp --dport 80 -j ACCEPT"

build_iptables_cmd_test : build_iptables_cmd json (codes "add") (codes "FORWARD") web ≡ web_rule
unfolding build_iptables_cmd
build_iptables_cmd_test = refl

abbrev numbered : Value
numbered =
    object ((codes "rule_num", number (codes "3")) ∷ (codes "target", text (codes "DROP")) ∷ [])

numbered_test :
    build_iptables_cmd json (codes "del") (codes "FORWARD") numbered
    ≡ codes "iptables -w -D FORWARD 3"
unfolding build_iptables_cmd
numbered_test = refl

abbrev start : AclState
start = record { enabled = true; rules = []; default_device = codes "br0" }

start-IsAcl : IsAcl start
start-IsAcl = record { bounded = omega arith; distinct = tt }

web_rule_short : length (build_iptables_cmd json (codes "add") (codes "FORWARD") web) < 4096
unfolding build_iptables_cmd
web_rule_short = omega arith

request-IsAcl_example :
    IsAcl (acl_handle_request json (codes "add") (codes "FORWARD") web none true start).2
request-IsAcl_example =
    request-IsAcl json (codes "add") (codes "FORWARD") web none true start web_rule_short
      start-IsAcl
