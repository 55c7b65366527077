-- ===== src/Traffic/Switch.antt =====
-- What the switch runs for recorded rules.
use mathlib.Core.List.{append_assoc}
use mathlib.Core.Path.{subst}
use wtsl_app.Base.{
  ◌≡◌, refl, ap, ◌∙◌, Bool, true, false, ◌||◌, ◌&&◌, Option, none, some, List, [], ◌∷◌, ◌++◌,
  String, ◌⊎◌, inl, inr, if◌then◌else◌, Text, codes, eq_of_text_eq, take, ◌-◌, arith,
}
use wtsl_app.Traffic.{
  Json, QosState, tc_command, tc_handle_request, iptables_handle_request, ipt_command, run_command,
  ex_command, is_delete, is, strcat, append_field, ipt_flag, ipt_interface, ipt_args, ipt_protocol,
  append_ipt_arg, append_ipt_args, arg_value, string_field, device, clean_command, max_cmd_len,
}
use wtsl_app.Traffic.Snapshot.{state_or}

-- The text, if there is one, begins with the words.
abbrev Begins : Text → Option Text → Type 0
Begins p none = Unit
Begins p (some cmd) = (rest : Text) × (cmd ≡ p ++ rest)

module _ (p : Text) where
  strcat-Begins :
      (o : Option Text) (label : String) (v : Option Text)
      → Begins p o
      → Begins p (strcat o label v)
  strcat-Begins none label v h = tt
  strcat-Begins (some cmd) label none h = tt
  strcat-Begins (some cmd) label (some v) (rest, e) = (
    rest ++ (codes label ++ v),
    ap (λ t. t ++ (codes label ++ v)) e ∙ append_assoc p rest (codes label ++ v),
  )

  if-Begins :
      (b : Bool) (x y : Option Text) → Begins p x → Begins p y → Begins p (if b then x else y)
  if-Begins true x y h k = h
  if-Begins false x y h k = k

  protocol-Begins :
      {J : Type 0} (json : Json J) (o : Option Text) (proto : Option Text)
      → Begins p o
      → Begins p (ipt_protocol json o proto)
  protocol-Begins json o none h = h
  protocol-Begins json o (some proto) h = strcat-Begins o " -p " (some proto) h

  module _ {J : Type 0} (json : Json J) where
    field-Begins :
        (o : Option Text) (label : String) (j : Option J)
        → Begins p o
        → Begins p (append_field json o label j)
    field-Begins o label none h = h
    field-Begins o label (some j) h = strcat-Begins o label (json.valuestring j) h

    interface-Begins :
        (chain dev : Text) (o : Option Text) (i out : Option J)
        → Begins p o
        → Begins p (ipt_interface json chain dev o i out)
    interface-Begins chain dev o none none h =
        if-Begins _ _ _ (strcat-Begins o " -i " (some dev) h)
          (if-Begins (is chain "OUTPUT") _ _ (strcat-Begins o " -o " (some dev) h) h)
    interface-Begins chain dev o none (some out) h = field-Begins o " -o " (some out) h
    interface-Begins chain dev o (some i) out h =
        field-Begins _ " -o " out (field-Begins o " -i " (some i) h)

    arg-Begins :
        (o : Option Text) (key : Text) (v : Option Text)
        → Begins p o
        → Begins p (append_ipt_arg json o key v)
    arg-Begins o key none h = h
    arg-Begins o key (some v) h = strcat-Begins o "" _ h

    args-Begins :
        (items : List (Text × J)) (o : Option Text)
        → Begins p o
        → Begins p (append_ipt_args json o items)
    args-Begins [] o h = h
    args-Begins ((key, j) ∷ items) o h =
        args-Begins items (append_ipt_arg json o key (arg_value json json.truncated_text j))
          (arg-Begins o key (arg_value json json.truncated_text j) h)

    all_args-Begins :
        (o : Option Text) (args : Option J) → Begins p o → Begins p (ipt_args json o args)
    all_args-Begins o none h = h
    all_args-Begins o (some args) h =
        if-Begins (json.is_object args) _ _ (args-Begins (json.children args) o h) h

-- What is built for an action that is neither delete, insert nor replace begins with `iptables -A`.
command-Begins :
    {J : Type 0} (json : Json J) (action chain : Text) (params : J) (s : QosState)
    → ipt_flag action ≡ codes "-A"
    → Begins (codes "iptables -A") (ipt_command json action chain params s.default_device)
unfolding ipt_command
command-Begins {J} json action chain params s flag =
    let p : Text = codes "iptables -A" in
    let start : Option Text =
      some
        (take (max_cmd_len - 1) (codes "iptables " ++ (ipt_flag action ++ (codes " " ++ chain)))) in
    let proto : Option Text = string_field json (json.field (codes "protocol") params) in
    let in_ : Option J = json.field (codes "in_interface") params in
    let out : Option J = json.field (codes "out_interface") params in
    let base : Begins p start = (take 4084 (codes " " ++ chain), rw flag refl) in
    all_args-Begins p json
      (ipt_interface json chain (device json s.default_device params)
        (ipt_protocol json start proto) in_ out)
      (json.field (codes "args") params)
      (interface-Begins p json chain (device json s.default_device params)
        (ipt_protocol json start proto) in_ out (protocol-Begins p json start proto base))

clean-Begins :
    (rest : Text) → clean_command (codes "iptables -A" ++ rest) ≡ some (codes "iptables -D")
unfolding clean_command
clean-Begins rest = refl

-- Of every iptables rule that is built to be appended, what the switch runs to remove it is the two
-- words `iptables -D`, without the chain and the rule.
pub clean-command :
    {J : Type 0} (json : Json J) (action chain : Text) (params : J) (s : QosState) (cmd : Text)
    → ipt_flag action ≡ codes "-A"
    → ipt_command json action chain params s.default_device ≡ some cmd
    → clean_command cmd ≡ some (codes "iptables -D")
clean-command json action chain params s cmd flag e =
    let (rest, same) : Begins (codes "iptables -A") (some cmd) =
      subst (λ o. Begins (codes "iptables -A") o) e
        (command-Begins json action chain params s flag) in
    ap clean_command same ∙ clean-Begins rest

or_cases : (a b : Bool) → (a || b) ≡ true → (a ≡ true) ⊎ (b ≡ true)
or_cases a b h = ground arith

delete_is_other :
    (action : Text)
    → is_delete action ≡ true
    → (is action "add" ≡ false) × (is action "insert" ≡ false) × (is action "replace" ≡ false)
delete_is_other action h = elim (or_cases (is action "delete") (is action "del") h) [
  | inl e ↦ rw (eq_of_text_eq action (codes "delete") e) (refl, refl, refl)
  | inr e ↦ rw (eq_of_text_eq action (codes "del") e) (refl, refl, refl)
]

unrecorded :
    (records works : Bool) (o : Option Text) (s : QosState)
    → records ≡ false
    → state_or s (run_command records works o s) ≡ s
unfolding run_command
unrecorded records works none s r = refl
unrecorded records works (some cmd) s r =
    let none_recorded : (ex_command cmd works && records) ≡ false = ground (arith, r) in
    rw none_recorded refl

-- A request to delete changes no state, whether it is for tc or iptables: the recorded commands stay
-- as they are.
pub delete-records :
    {J : Type 0} (json : Json J) (action what : Text) (params : J) (works : Bool) (s : QosState)
    → is_delete action ≡ true
    → (state_or s (tc_handle_request json action what params works s) ≡ s)
      × (state_or s (iptables_handle_request json action what params works s) ≡ s)
unfolding tc_handle_request iptables_handle_request
delete-records json action what params works s h =
    let (no_add, no_insert, no_replace) = delete_is_other action h in
    (
      unrecorded (is action "add" || is action "replace") works
          (tc_command json action what params s.default_device) s (rw (no_add, no_replace) refl),
      unrecorded (is action "add" || is action "insert" || is action "replace") works
          (ipt_command json action what params s.default_device) s
          (rw (no_add, no_insert, no_replace) refl),
    )
