-- ===== src/Access/Rules.antt =====
-- The recorded rules over requests and switches.
use wtsl_app.Base.{
  ◌-◌, ◌<◌, ◌≤◌, ◌≡◌, refl, Bool, true, false, ◌||◌, Option, none, some, List, [], ◌∷◌, inl, inr,
  arith, leb, Bool-cases, if◌then◌else◌, length, length-append, take, take-length, Text,
}
use wtsl_app.Traffic.{Json, is, recorded}
use wtsl_app.Traffic.Snapshot.{Distinct, Distinct-append}
use wtsl_app.Access.{
  AclState, acl_max_rules, acl_max_cmd_len, record_acl_rule, build_iptables_cmd, acl_handle_request,
  acl_toggle_switch, finish_request, list_rules, Reply, flush_forward, drop_forward,
}

-- At most 256 rules, none twice.
pub record IsAcl (s : AclState) : Type 0 where
  pub bounded : length s.rules ≤ acl_max_rules
  pub distinct : Distinct s.rules

record_acl_rule-IsAcl :
    (cmd : Text) (s : AclState)
    → length cmd < acl_max_cmd_len
    → IsAcl s
    → IsAcl (record_acl_rule cmd s)
unfolding record_acl_rule
record_acl_rule-IsAcl cmd s l h = elim (Bool-cases (leb acl_max_rules (length s.rules))) [
  | inl full ↦ rw full h
  | inr room ↦ elim (Bool-cases (recorded cmd s.rules)) [
    | inl old ↦ rw (room, old) h
    | inr new ↦
        let whole : take (acl_max_cmd_len - 1) cmd ≡ cmd =
          take-length (acl_max_cmd_len - 1) cmd (omega arith) in
        rw (room, new, whole)
          (record {
            bounded = ground (arith, length-append s.rules (cmd ∷ []), room);
            distinct = Distinct-append cmd s.rules h.distinct new;
          })
  ]
]

if-IsAcl : (b : Bool) (s s' : AclState) → IsAcl s → IsAcl s' → IsAcl (if b then s else s')
if-IsAcl true s s' h k = h
if-IsAcl false s s' h k = k

finish-IsAcl :
    (action cmd : Text) (works : Bool) (s : AclState)
    → length cmd < acl_max_cmd_len
    → IsAcl s
    → IsAcl (finish_request action cmd works s).2
unfolding finish_request
finish-IsAcl action cmd false s l h = h
finish-IsAcl action cmd true s l h =
    if-IsAcl (is action "add" || is action "insert") (record_acl_rule cmd s) s
      (record_acl_rule-IsAcl cmd s l h) h

list-IsAcl :
    (listing : Option (List Text)) (s : AclState) → IsAcl s → IsAcl (list_rules listing s).2
unfolding list_rules
list-IsAcl none s h = h
list-IsAcl (some lines) s h = h

either-IsAcl :
    (b : Bool) (p q : Bool × Reply × AclState)
    → IsAcl p.2
    → IsAcl q.2
    → IsAcl ((if b then p else q).2)
either-IsAcl true p q h k = h
either-IsAcl false p q h k = k

-- A request whose command stays below the size of its buffer keeps at most 256 rules, none twice,
-- whatever it asks for and whether or not it works.
pub request-IsAcl :
    {J : Type 0} (json : Json J) (action chain : Text) (params : J) (listing : Option (List Text))
    (works : Bool) (s : AclState)
    → length (build_iptables_cmd json action chain params) < acl_max_cmd_len
    → IsAcl s
    → IsAcl (acl_handle_request json action chain params listing works s).2
unfolding acl_handle_request
request-IsAcl json action chain params listing works s l h =
    either-IsAcl (is action "list" || is action "get") (list_rules listing s)
      (finish_request action (build_iptables_cmd json action chain params) works s)
      (list-IsAcl listing s h)
      (finish-IsAcl action (build_iptables_cmd json action chain params) works s l h)

-- From on, switching off flushes the chain and opens its policy, and switching on again closes the
-- policy, lets known connections pass, and comes back to the same state: the commands are the same
-- four whatever rules are recorded.
pub switch-forgets :
    (s : AclState)
    → s.enabled ≡ true
    → ((acl_toggle_switch false s).0 ≡ flush_forward)
      × (acl_toggle_switch true ((acl_toggle_switch false s).1) ≡ (drop_forward, s))
unfolding acl_toggle_switch
switch-forgets s e = (rw e refl, rw e refl)
