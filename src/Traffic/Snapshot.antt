-- ===== src/Traffic/Snapshot.antt =====
-- The recorded commands over requests and switches.
use mathlib.Core.Path.{subst}
use wtsl_app.Base.{
  ◌-◌, ◌<◌, ◌≤◌, ◌≡◌, refl, ap, ◌∙◌, Bool, true, false, ◌&&◌, ◌||◌, Option, none, some, List, [],
  ◌∷◌, ◌++◌, inl, inr, arith, leb, ◌==◌, Bool-cases, if◌then◌else◌, length, length-append, take,
  take-length, Text, text_eq,
}
use wtsl_app.Traffic.{
  Json, QosState, max_snapshot_rules, max_cmd_len, recorded, record_rule, ex_command, run_command,
  tc_command, ipt_command, tc_handle_request, iptables_handle_request, qos_toggle_switch,
}

abbrev pub Distinct : List Text → Type 0
Distinct [] = Unit
Distinct (r ∷ rules) = (recorded r rules ≡ false) × Distinct rules

-- At most 256 commands, none twice.
pub record IsSnapshot (s : QosState) : Type 0 where
  pub bounded : length s.snapshot_rules ≤ max_snapshot_rules
  pub distinct : Distinct s.snapshot_rules

text_eq_comm : (s t : Text) → text_eq s t ≡ text_eq t s
text_eq_comm [] [] = refl
text_eq_comm [] (d ∷ t) = refl
text_eq_comm (c ∷ s) [] = refl
text_eq_comm (c ∷ s) (d ∷ t) =
    let same : (c == d) ≡ (d == c) = ground arith in rw (same, text_eq_comm s t) refl

or_false : (a b : Bool) → (a || b) ≡ false → (a ≡ false) × (b ≡ false)
or_false a b h = ground arith

recorded-append :
    (r cmd : Text) (rules : List Text)
    → recorded r rules ≡ false
    → text_eq cmd r ≡ false
    → recorded r (rules ++ cmd ∷ []) ≡ false
recorded-append r cmd [] h d = rw d refl
recorded-append r cmd (x ∷ rules) h d =
    let (miss, rest) = or_false (text_eq x r) (recorded r rules) h in
    rw miss (recorded-append r cmd rules rest d)

pub Distinct-append :
    (cmd : Text) (rules : List Text)
    → Distinct rules
    → recorded cmd rules ≡ false
    → Distinct (rules ++ cmd ∷ [])
Distinct-append cmd [] d h = (refl, tt)
Distinct-append cmd (r ∷ rules) (n, d) h =
    let (miss, rest) = or_false (text_eq r cmd) (recorded cmd rules) h in
    (recorded-append r cmd rules n (text_eq_comm cmd r ∙ miss), Distinct-append cmd rules d rest)

record_rule-IsSnapshot :
    (cmd : Text) (s : QosState)
    → length cmd < max_cmd_len
    → IsSnapshot s
    → IsSnapshot (record_rule cmd s)
unfolding record_rule
record_rule-IsSnapshot cmd s l h =
    elim (Bool-cases (leb max_snapshot_rules (length s.snapshot_rules))) [
      | inl full ↦ rw full h
      | inr room ↦ elim (Bool-cases (recorded cmd s.snapshot_rules)) [
        | inl old ↦ rw (room, old) h
        | inr new ↦
            let whole : take (max_cmd_len - 1) cmd ≡ cmd =
              take-length (max_cmd_len - 1) cmd (omega arith) in
            rw (room, new, whole)
              (record {
                bounded = ground (arith, length-append s.snapshot_rules (cmd ∷ []), room);
                distinct = Distinct-append cmd s.snapshot_rules h.distinct new;
              })
      ]
    ]

-- A command stays below the size of its buffer.
abbrev pub InBuffer : Option Text → Type 0
InBuffer none = Unit
InBuffer (some cmd) = length cmd < max_cmd_len

-- One request or switch; a crash has no successor.
pub data Step {J : Type 0} (json : Json J) : QosState → QosState → Type 0 where
  tc_step :
      {s s' : QosState} (action obj_type : Text) (params : J) (works r : Bool)
      → InBuffer (tc_command json action obj_type params s.default_device)
      → tc_handle_request json action obj_type params works s ≡ some (r, s')
      → Step json s s'
  ipt_step :
      {s s' : QosState} (action chain : Text) (params : J) (works r : Bool)
      → InBuffer (ipt_command json action chain params s.default_device)
      → iptables_handle_request json action chain params works s ≡ some (r, s')
      → Step json s s'
  switch_step : {s : QosState} (enable : Bool) → Step json s (qos_toggle_switch enable s).1

pub data Steps {J : Type 0} (json : Json J) : QosState → QosState → Type 0 where
  stay : {s : QosState} → Steps json s s
  onward : {s s' s'' : QosState} → Step json s s' → Steps json s' s'' → Steps json s s''

abbrev pub state_or : {A : Type 0} → QosState → Option (A × QosState) → QosState
state_or s none = s
state_or s (some (r, s')) = s'

run_command-IsSnapshot :
    (records works : Bool) (o : Option Text) (s : QosState)
    → InBuffer o
    → IsSnapshot s
    → IsSnapshot (state_or s (run_command records works o s))
unfolding run_command
run_command-IsSnapshot records works none s f h = h
run_command-IsSnapshot records works (some cmd) s f h =
    elim (Bool-cases (ex_command cmd works && records)) [
      | inl e ↦ rw e (record_rule-IsSnapshot cmd s f h)
      | inr e ↦ rw e h
    ]

enabled-IsSnapshot :
    (b : Bool) (s : QosState) → IsSnapshot s → IsSnapshot (record s { enabled = b })
enabled-IsSnapshot b s h = record { bounded = h.bounded; distinct = h.distinct }

if-IsSnapshot :
    (b : Bool) (p q : List Text × QosState)
    → IsSnapshot p.1
    → IsSnapshot q.1
    → IsSnapshot ((if b then p else q).1)
if-IsSnapshot true p q h k = h
if-IsSnapshot false p q h k = k

switch-IsSnapshot :
    (enable : Bool) (s : QosState) → IsSnapshot s → IsSnapshot (qos_toggle_switch enable s).1
unfolding qos_toggle_switch
switch-IsSnapshot true s h = if-IsSnapshot s.enabled _ _ h (enabled-IsSnapshot true s h)
switch-IsSnapshot false s h = if-IsSnapshot s.enabled _ _ (enabled-IsSnapshot false s h) h

Step-IsSnapshot :
    {J : Type 0} (json : Json J) {s s' : QosState} → Step json s s' → IsSnapshot s → IsSnapshot s'
unfolding tc_handle_request iptables_handle_request
Step-IsSnapshot json {s} (tc_step action obj_type params works r f e) h =
    subst (λ q. IsSnapshot q) (ap (state_or s) e) (run_command-IsSnapshot _ works _ s f h)
Step-IsSnapshot json {s} (ipt_step action chain params works r f e) h =
    subst (λ q. IsSnapshot q) (ap (state_or s) e) (run_command-IsSnapshot _ works _ s f h)
Step-IsSnapshot json {s} (switch_step enable) h = switch-IsSnapshot enable s h

-- Over any requests whose commands stay below the size of their buffer, and any switches, at most
-- 256 commands are recorded, and none twice.
pub Steps-IsSnapshot :
    {J : Type 0} (json : Json J) (s s' : QosState) → Steps json s s' → IsSnapshot s → IsSnapshot s'
Steps-IsSnapshot json s s' stay h = h
Steps-IsSnapshot json s s'' (onward {s' = s'} step rest) h =
    Steps-IsSnapshot json s' s'' rest (Step-IsSnapshot json step h)
