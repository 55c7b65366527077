-- ===== src/Traffic/Iptables.antt =====
-- The iptables command that iptables_handle_request of
-- src/wtsl_core/slal/slb/wtsl_core_slb_qos_core.c builds of a request.
use wtsl_app.Base.{
  ◌-◌, ◌||◌, Option, none, some, List, [], ◌∷◌, ◌++◌, if◌then◌else◌, take, Text, codes,
}
use wtsl_app.Traffic.Fields.{
  Json, max_cmd_len, is, is_delete, strcat, string_field, device, append_field, arg_value,
}

abbrev pub ipt_flag : Text → Text
ipt_flag action =
    if is_delete action
    then codes "-D"
    else (if is action "insert"
        then codes "-I"
        else (if is action "replace" then codes "-R" else codes "-A"))

abbrev pub ipt_option : Text → Text
ipt_option key =
    if is key "source" || is key "src"
    then codes " -s "
    else (if is key "destination" || is key "dst"
        then codes " -d "
        else (if is key "sport"
            then codes " --sport "
            else (if is key "dport"
                then codes " --dport "
                else (if is key "jump" || is key "target"
                    then codes " -j "
                    else codes " --" ++ (key ++ codes " ")))))

module _ {J : Type 0} (json : Json J) where
  -- The interface: as asked for, or the device by the chain.
  abbrev pub ipt_interface : Text → Text → Option Text → Option J → Option J → Option Text
  ipt_interface chain dev cmd none none =
      if is chain "INPUT" || is chain "FORWARD"
      then strcat cmd " -i " (some dev)
      else (if is chain "OUTPUT" then strcat cmd " -o " (some dev) else cmd)
  ipt_interface chain dev cmd none (some out) = append_field json cmd " -o " (some out)
  ipt_interface chain dev cmd (some in_) out =
      append_field json (append_field json cmd " -i " (some in_)) " -o " out

  abbrev pub append_ipt_arg : Option Text → Text → Option Text → Option Text
  append_ipt_arg cmd key none = cmd
  append_ipt_arg cmd key (some val) = strcat cmd "" (some (ipt_option key ++ val))

  abbrev pub append_ipt_args : Option Text → List (Text × J) → Option Text
  append_ipt_args cmd [] = cmd
  append_ipt_args cmd ((key, j) ∷ items) =
      append_ipt_args (append_ipt_arg cmd key (arg_value json json.truncated_text j)) items

  abbrev pub ipt_args : Option Text → Option J → Option Text
  ipt_args cmd none = cmd
  ipt_args cmd (some args) =
      if json.is_object args then append_ipt_args cmd (json.children args) else cmd

  abbrev pub ipt_protocol : Option Text → Option Text → Option Text
  ipt_protocol cmd none = cmd
  ipt_protocol cmd (some proto) = strcat cmd " -p " (some proto)

  unfoldable pub ipt_command : Text → Text → J → Text → Option Text
  ipt_command action chain params default =
      let base =
        some (
          take (max_cmd_len - 1)
            (codes "iptables " ++ (ipt_flag action ++ (codes " " ++ chain)))) in
      let proto = ipt_protocol base (string_field json (json.field (codes "protocol") params)) in
      let interface =
        ipt_interface chain (device json default params) proto
          (json.field (codes "in_interface") params) (json.field (codes "out_interface") params) in
      ipt_args interface (json.field (codes "args") params)
