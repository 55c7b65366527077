-- ===== src/Traffic/Tc.antt =====
-- The tc command that tc_handle_request of src/wtsl_core/slal/slb/wtsl_core_slb_qos_core.c builds of a
-- request.
use wtsl_app.Base.{
  ℕ, ◌-◌, Bool, true, false, not, ◌&&◌, ◌||◌, Option, none, some, List, [], ◌∷◌, ◌++◌, ltb, ◌==◌,
  if◌then◌else◌, length, take, Text, String, codes,
}
use wtsl_app.Traffic.Fields.{
  Json, max_cmd_len, is, is_delete, strcat, string_field, device, append_field, arg_value,
}

-- The first command words: `snprintf` of at most 4095 bytes.
abbrev pub tc_base : Text → Text → Text → Text
tc_base action obj_type dev = take (max_cmd_len - 1) (
    if is_delete action
    then codes "tc qdisc del dev " ++ dev
    else (if is obj_type "qdisc" && is action "add"
        then codes "tc qdisc add dev " ++ dev
        else (if is obj_type "class" && is action "add"
            then codes "tc class add dev " ++ dev
            else (if is obj_type "filter" && is action "add"
                then codes "tc filter add dev " ++ dev
                else codes "tc "
                  ++ (obj_type ++ (codes " " ++ (action ++ (codes " dev " ++ dev))))))))

-- What stands before the first colon.
abbrev pub colon_front : ℕ → Option Text → Option Text
colon_front c none = none
colon_front c (some s) = some (c ∷ s)

abbrev pub before_colon : Text → Option Text
before_colon [] = none
before_colon (c ∷ s) =
    let rest = colon_front c (before_colon s) in if c == 58 then some [] else rest

-- The parent of a class by its classid.
abbrev pub class_parent : Option Text → Option Text → Option Text
class_parent cmd none = cmd
class_parent cmd (some major) =
    if not (length major == 0) && ltb (length major) 29
    then strcat cmd " parent " (some (major ++ codes ":0"))
    else cmd

module _ {J : Type 0} (json : Json J) where
  abbrev pub append_parent : Text → Option Text → Option J → Option J → Option Text
  append_parent obj_type cmd (some parent) classid = append_field json cmd " parent " (some parent)
  append_parent obj_type cmd none classid =
      if is obj_type "qdisc"
      then strcat cmd " root" (some [])
      else (if is obj_type "class"
          then class_parent cmd (parent_of (string_field json classid))
          else cmd)
    where
      parent_of : Option Text → Option Text
      parent_of none = none
      parent_of (some s) = before_colon s

  abbrev pub append_prio : Option Text → Option J → Option Text
  append_prio cmd none = cmd
  append_prio cmd (some j) = strcat cmd "" (some (take 15 (codes " prio " ++ json.valueint_text j)))

  abbrev pub append_tc_arg : Text → Option Text → Text → Option Text → Option Text
  append_tc_arg obj_type cmd key none = cmd
  append_tc_arg obj_type cmd key (some val) =
      if is obj_type "filter" && is key "match"
      then strcat cmd " match " (some val)
      else strcat cmd " " (some (key ++ (codes " " ++ val)))

  abbrev pub append_tc_args : Text → Option Text → List (Text × J) → Option Text
  append_tc_args obj_type cmd [] = cmd
  append_tc_args obj_type cmd ((key, j) ∷ items) =
      append_tc_args obj_type
        (append_tc_arg obj_type cmd key (arg_value json json.valuedouble_text j)) items

  abbrev pub append_if : Bool → Option Text → String → Option J → Option Text
  append_if true cmd label j = append_field json cmd label j
  append_if false cmd label j = cmd

  -- The command of `tc_handle_request` behind its first words.
  abbrev pub tc_deleted : Option Text → J → Option Text
  tc_deleted cmd params =
      append_field json (append_field json cmd " parent " (json.field (codes "parent") params))
        " handle " (json.field (codes "handle") params)

  abbrev pub tc_args : Text → Option Text → Option J → Option Text
  tc_args obj_type cmd none = cmd
  tc_args obj_type cmd (some args) =
      if json.is_object args then append_tc_args obj_type cmd (json.children args) else cmd

  abbrev pub filter_prio : Bool → Option Text → J → Option Text
  filter_prio true cmd params = append_prio cmd (json.field (codes "prio") params)
  filter_prio false cmd params = cmd

  abbrev pub tc_changed : Text → Text → Option Text → J → Option Text
  tc_changed action obj_type base params =
      let filter = is obj_type "filter" in
      let takes_kind = is action "add" || is action "replace" || is action "change" in
      let classid = json.field (codes "classid") params in
      let parented = append_parent obj_type base (json.field (codes "parent") params) classid in
      let classed = append_if (is obj_type "class") parented " classid " classid in
      let handled =
        append_if (is obj_type "qdisc") classed " handle " (json.field (codes "handle") params) in
      let protocol = append_if filter handled " protocol " (json.field (codes "protocol") params) in
      let prio = filter_prio filter protocol params in
      let kind = append_if takes_kind prio " " (json.field (codes "kind") params) in
      let args = tc_args obj_type kind (json.field (codes "args") params) in
      append_if filter args " flowid " (json.field (codes "flowid") params)

  unfoldable pub tc_command : Text → Text → J → Text → Option Text
  tc_command action obj_type params default =
      let base = some (tc_base action obj_type (device json default params)) in
      if is_delete action then tc_deleted base params else tc_changed action obj_type base params
