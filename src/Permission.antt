-- ===== src/Permission.antt =====
-- The permission check in front of the node operations: the levels and the user context of
-- src/wtsl_core/include/wtsl_user_manager.h, check_permission_user and the level that a login gives
-- (src/wtsl_core/user/wtsl_core_user_manager.c), and interface_wrapper with its table
-- (src/wtsl_core/slal/node/wtsl_core_node_manager.c and .h). What an operation does is not modelled
-- here: the outcome of a call says whether it is reached.
pub mod Levels
mod Examples
use Prim.Native.Nat.{bit_and}
use wtsl_app.Base.{
  to_lower, ℕ, ◌+◌, ◌≤◌, Bool, true, false, not, ◌&&◌, Option, none, some, List, [], ◌∷◌, leb, ◌==◌,
  if◌then◌else◌, get_elem?, map, Text, codes, text_eq, String,
}

abbrev pub permission_none : ℕ
permission_none = 0

abbrev pub permission_read : ℕ
permission_read = 1

abbrev pub permission_write : ℕ
permission_write = 2

abbrev pub permission_execute : ℕ
permission_execute = 4

abbrev pub permission_admin : ℕ
permission_admin = 7

-- The ids are int; the source only tests the group for 0.
pub record UserContext : Type 0 where
  pub user_id : ℕ
  pub group_id : ℕ
  pub permission : ℕ

pub record PermissionMap : Type 0 where
  pub func_name : Text
  pub required_permission : ℕ

abbrev entry : String → ℕ → PermissionMap
entry name perm = record { func_name = codes name; required_permission = perm }

-- The table that NODE_FUNC_LIST generates, in the order of its indices.
unfoldable pub global_perm_map : List PermissionMap
global_perm_map =
    entry "get_all_nodes_info" permission_read
    ∷ entry "get_node_basicinfo" permission_read
    ∷ entry "set_node_basicinfo" permission_write
    ∷ entry "do_time_sync" permission_execute
    ∷ entry "get_node_conninfo" permission_read
    ∷ entry "start_scan" permission_execute
    ∷ entry "do_connect" permission_execute
    ∷ entry "do_upload" permission_write
    ∷ entry "do_upgrade" permission_admin
    ∷ entry "do_reboot" permission_admin
    ∷ entry "get_hw_resources_info" permission_read
    ∷ entry "do_autojoinNetwork" permission_read
    ∷ entry "show_bss_info" permission_read
    ∷ entry "get_node_advinfo" permission_read
    ∷ entry "set_node_advinfo" permission_write
    ∷ entry "do_disconnect" permission_write
    ∷ entry "do_restore" permission_write
    ∷ entry "get_node_traffic" permission_write
    ∷ entry "do_aifh" permission_write
    ∷ entry "do_chswitch" permission_write
    ∷ entry "get_adaptivemcsinfo" permission_write
    ∷ entry "get_traceinfo" permission_write
    ∷ entry "get_secalg" permission_write
    ∷ entry "set_adaptivemcs" permission_write
    ∷ entry "do_clearschmcs" permission_write
    ∷ entry "get_mcsboundinfo" permission_write
    ∷ entry "set_mcsbound" permission_write
    ∷ entry "do_throughput_test" permission_write
    ∷ entry "do_shortrange_test" permission_write
    ∷ entry "do_remoterange_test" permission_write
    ∷ entry "do_sle_scan" permission_write
    ∷ entry "get_sle_scan_result" permission_write
    ∷ entry "do_sle_connect" permission_write
    ∷ entry "do_lowpow_test" permission_write
    ∷ entry "get_sle_basicinfo" permission_write
    ∷ entry "get_sle_conninfo" permission_write
    ∷ entry "set_sle_basicinfo" permission_write
    ∷ entry "do_lowlatency_test" permission_write
    ∷ entry "set_sle_announce_id" permission_write
    ∷ entry "qos_get_status" permission_read
    ∷ entry "qos_switch" permission_write
    ∷ entry "qos_get_rules" permission_read
    ∷ entry "qos_set_rules" permission_write
    ∷ entry "config_vap0_mac" permission_write
    ∷ entry "set_sle_trans_config" permission_write
    ∷ entry "get_sle_trans_config" permission_write
    ∷ entry "acl_get_status" permission_read
    ∷ entry "acl_switch" permission_write
    ∷ entry "acl_get_rules" permission_read
    ∷ entry "acl_set_rules" permission_write
    ∷ []

-- The switch at the end of `wtsl_core_user_login`.
unfoldable pub login_permission : UserContext → UserContext
login_permission ctx = record ctx {
  permission = if ctx.group_id == 0 then permission_admin else permission_read;
}

pub check_permission_user : Option UserContext → ℕ → Bool
check_permission_user none required = false
check_permission_user (some ctx) required = bit_and ctx.permission required == required

pub record Node : Type 0 where
  pub mac : Text
  pub perm_map : Option (List PermissionMap)

abbrev pub same_mac : Text → Text → Bool
same_mac s t = text_eq (map to_lower s) (map to_lower t)

-- How a call of `interface_wrapper` ends. invalid, denied and remote return NULL; crashed is the
-- read of `node->perm_map` in the error message for a node that is NULL; unlisted is a read behind
-- the table.
pub data Outcome : Type 0 where
  crashed : Outcome
  invalid : Outcome
  unlisted : Outcome
  denied : Outcome
  remote : Outcome
  executed : Outcome

-- Behind the permission check: `call_remote_node_cmd` is empty.
unfoldable pub local_or_remote : Text → Node → Outcome
local_or_remote local_mac node = if same_mac node.mac local_mac then executed else remote

abbrev pub permitted : Text → Node → UserContext → Option PermissionMap → Outcome
permitted local_mac node ctx none = unlisted
permitted local_mac node ctx (some e) =
    if check_permission_user (some ctx) e.required_permission
    then local_or_remote local_mac node
    else denied

abbrev pub looked_up : Text → Node → UserContext → ℕ → Option (List PermissionMap) → Outcome
looked_up local_mac node ctx func_index none = invalid
looked_up local_mac node ctx func_index (some entries) =
    permitted local_mac node ctx (get_elem? entries func_index)

-- `has_func` says whether `real_func` is not NULL.
unfoldable pub interface_wrapper : Text → Option Node → Bool → ℕ → Option UserContext → Outcome
unfolding check_permission_user local_or_remote
interface_wrapper local_mac none has_func func_index ctx = crashed
interface_wrapper local_mac (some node) false func_index ctx = invalid
interface_wrapper local_mac (some node) true func_index none = invalid
interface_wrapper local_mac (some node) true func_index (some ctx) =
    looked_up local_mac node ctx func_index node.perm_map
