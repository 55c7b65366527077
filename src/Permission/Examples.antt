-- ===== src/Permission/Examples.antt =====
-- Calls of a reader and an administrator: the theorem's hypotheses hold there, and tests.
use wtsl_app.Base.{get_elem?, ◌≡◌, refl, true, some, codes}
use wtsl_app.Permission.{
  UserContext, Node, PermissionMap, global_perm_map, login_permission, interface_wrapper, denied,
  permission_admin,
}
use wtsl_app.Permission.Levels.{login-outcome}

abbrev reader : UserContext
reader = record { user_id = 1001; group_id = 1000; permission = 0 }

abbrev gateway : Node
gateway = record { mac = codes "AA:01"; perm_map = some global_perm_map }

abbrev reboot : PermissionMap
reboot = record { func_name = codes "do_reboot"; required_permission = permission_admin }

reboot_found : get_elem? global_perm_map 9 ≡ some reboot
unfolding global_perm_map
reboot_found = refl

login-outcome_example :
    interface_wrapper (codes "aa:01") (some gateway) true 9 (some (login_permission reader))
    ≡ denied
login-outcome_example = login-outcome (codes "aa:01") gateway 9 reader reboot refl reboot_found
