-- ===== src/Access.antt =====
-- The access lists of src/wtsl_core/slal/slb/wtsl_core_slb_acl_core.c: requests in JSON become
-- iptables commands, commands that worked are recorded, and a switch sets the policy of the FORWARD
-- chain. cJSON is a parameter; what the shell reports is an input. Commands are taken to stay below
-- the size of their buffer, which the source does not test behind the first words.
mod Rules
mod Examples
use wtsl_app.Base.{
  ℕ, ◌-◌, String, Bool, true, false, not, ◌&&◌, ◌||◌, Option, none, some, List, [], ◌∷◌, ◌++◌, leb,
  ◌==◌, if◌then◌else◌, length, take, Text, codes, text_eq, starts_with,
}
use wtsl_app.Traffic.{Json, is, is_delete, string_field, recorded, ipt_flag}

abbrev pub acl_max_cmd_len : ℕ
acl_max_cmd_len = 4096

abbrev pub acl_max_rules : ℕ
acl_max_rules = 256

-- `rules` up to `rule_count`: the cells behind are not read.
pub record AclState : Type 0 where
  pub enabled : Bool
  pub rules : List Text
  pub default_device : Text

pub acl_init_state : Text → AclState
acl_init_state default_dev = record {
  enabled = false;
  rules = [];
  default_device = take 31 default_dev;
}

pub record_acl_rule : Text → AclState → AclState
record_acl_rule cmd s =
    let added : AclState = record s { rules = s.rules ++ take (acl_max_cmd_len - 1) cmd ∷ [] } in
    if leb acl_max_rules (length s.rules) then s else (if recorded cmd s.rules then s else added)

abbrev append_string : Text → String → Option Text → Text
append_string cmd label none = cmd
append_string cmd label (some s) = cmd ++ (codes label ++ s)

-- A second field where the first is missing.
abbrev or_else : {J : Type 0} → Option J → Option J → Option J
or_else none other = other
or_else (some j) other = some j

abbrev is_there : {J : Type 0} → Option J → Bool
is_there none = false
is_there (some j) = true

-- What the response holds.
pub data Reply : Type 0 where
  rules_listed : List Text → Reply
  not_executed : Reply
  succeeded : Reply
  failed : Reply

-- `line[strcspn(line, "\n")] = 0`
abbrev pub cut_newline : Text → Text
cut_newline [] = []
cut_newline (c ∷ s) = let rest = c ∷ cut_newline s in if c == 10 then [] else rest

-- The lines of `iptables -S` without the policies.
pub list_lines : List Text → List Text
list_lines [] = []
list_lines (line ∷ lines) =
    let rest = list_lines lines in
    if starts_with (codes "-P") line then rest else cut_newline line ∷ rest

-- `listing` is what the shell prints, none if it cannot be run.
pub list_rules : Option (List Text) → AclState → Bool × Reply × AclState
unfolding list_lines
list_rules none s = (false, not_executed, s)
list_rules (some lines) s = (true, rules_listed (list_lines lines), s)

pub finish_request : Text → Text → Bool → AclState → Bool × Reply × AclState
unfolding record_acl_rule
finish_request action cmd false s = (false, failed, s)
finish_request action cmd true s =
    (true, succeeded, if is action "add" || is action "insert" then record_acl_rule cmd s else s)

abbrev pub flush_forward : List Text
flush_forward = codes "iptables -w -F FORWARD" ∷ codes "iptables -w -P FORWARD ACCEPT" ∷ []

abbrev pub drop_forward : List Text
drop_forward =
    codes "iptables -w -P FORWARD DROP"
    ∷ codes
        "iptables -w -A FORWARD -m state --state ESTABLISHED,RELATED -j ACCEPT 2>/dev/null || true"
    ∷ []

-- The commands that the switch runs, in their order, and the state.
pub acl_toggle_switch : Bool → AclState → List Text × AclState
acl_toggle_switch enable s =
    let off : List Text × AclState = (flush_forward, record s { enabled = false }) in
    let on : List Text × AclState = (drop_forward, record s { enabled = true }) in
    if enable then (if s.enabled then ([], s) else on) else (if s.enabled then off else ([], s))

module _ {J : Type 0} (json : Json J) where
  abbrev object_or : J → Option J → J
  object_or params none = params
  object_or params (some rule) = if json.is_object rule then rule else params

  abbrev number_field : Option J → Option Text
  number_field none = none
  number_field (some j) = if json.is_number j then some (take 15 (json.valueint_text j)) else none

  -- The four branches with a rule number print the flag of the action.
  abbrev acl_base : Text → Text → Option Text → Text
  acl_base action chain none =
      take (acl_max_cmd_len - 1) (codes "iptables -w " ++ (ipt_flag action ++ (codes " " ++ chain)))
  acl_base action chain (some num) =
      take (acl_max_cmd_len - 1)
        (codes "iptables -w " ++ (ipt_flag action ++ (codes " " ++ (chain ++ (codes " " ++ num)))))

  abbrev string_of : String → J → Option Text
  string_of name params = string_field json (json.field (codes name) params)

  abbrev is_udp : Option Text → Bool
  is_udp none = false
  is_udp (some proto) = is proto "udp"

  abbrev acl_ports : Text → J → Text
  acl_ports cmd params =
      let matched =
        cmd
        ++ (if is_udp (string_of "protocol" params) then codes " -m udp" else codes " -m tcp") in
      let sport = append_string matched " --sport " (string_of "source_port" params) in
      let dport = append_string sport " --dport " (string_of "dest_port" params) in
      if is_there (json.field (codes "dest_port") params)
        || is_there (json.field (codes "source_port") params)
      then dport
      else cmd

  abbrev acl_matches : Text → J → Text
  acl_matches base params =
      let proto = append_string base " -p " (string_of "protocol" params) in
      let source = append_string proto " -s " (string_of "source" params) in
      let destination = append_string source " -d " (string_of "destination" params) in
      let in_ = append_string destination " -i " (string_of "in_interface" params) in
      let out = append_string in_ " -o " (string_of "out_interface" params) in
      append_string (acl_ports out params) " -j " (string_of "target" params)

  -- A deletion by number ends behind the number.
  abbrev acl_rest : Text → Option Text → Text → J → Text
  acl_rest action none base params = acl_matches base params
  acl_rest action (some num) base params =
      if is_delete action then base else acl_matches base params

  unfoldable pub build_iptables_cmd : Text → Text → J → Text
  build_iptables_cmd action chain params =
      let rule = object_or params (json.field (codes "rule") params) in
      let num =
        number_field
          (or_else (json.field (codes "rule_num") params) (json.field (codes "rule_num") rule)) in
      acl_rest action num (acl_base action chain num) rule

  -- What a request returns and replies, and the state: `works` is what the shell reports of the
  -- command.
  pub acl_handle_request :
      Text → Text → J → Option (List Text) → Bool → AclState → Bool × Reply × AclState
  unfolding list_rules finish_request build_iptables_cmd
  acl_handle_request action chain params listing works s =
      if is action "list" || is action "get"
      then list_rules listing s
      else finish_request action (build_iptables_cmd action chain params) works s
