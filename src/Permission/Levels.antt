-- ===== src/Permission/Levels.antt =====
-- What a user may call after a login.
use Prim.Native.Nat.{bit_and}
use wtsl_app.Base.{
  ℕ, suc, zero, ◌≡◌, refl, sym, ap, ◌∙◌, Bool, true, false, ◌&&◌, ◌||◌, not, Option, some, none,
  List, [], ◌∷◌, ◌==◌, if◌then◌else◌, get_elem?, Text, arith,
}
use wtsl_app.Permission.{
  UserContext, PermissionMap, Node, denied, permission_read, permission_admin, global_perm_map,
  login_permission, check_permission_user, interface_wrapper, local_or_remote, permitted, looked_up,
}

abbrev agree : Bool → Bool → Bool
agree true b = b
agree false b = not b

agree_eq : (a b : Bool) → agree a b ≡ true → a ≡ b
agree_eq a b h = ground arith

-- An administrator passes the check of the level, and a reader passes it if the level is READ.
abbrev level_test : ℕ → Bool
level_test r =
    (bit_and permission_admin r == r)
    && agree (bit_and permission_read r == r) (r == permission_read)

abbrev all_levels : List PermissionMap → Bool
all_levels [] = true
all_levels (e ∷ entries) = level_test e.required_permission && all_levels entries

table_levels : all_levels global_perm_map ≡ true
unfolding global_perm_map
table_levels = refl

and_true : (a b : Bool) → (a && b) ≡ true → (a ≡ true) × (b ≡ true)
and_true a b h = ground arith

abbrev passes : Option PermissionMap → Bool
passes none = true
passes (some e) = level_test e.required_permission

level_at :
    (entries : List PermissionMap) (i : ℕ) (e : PermissionMap)
    → all_levels entries ≡ true
    → get_elem? entries i ≡ some e
    → level_test e.required_permission ≡ true
level_at [] i e h g = cc
level_at (x ∷ entries) zero e h g =
    let (here, rest) = and_true (level_test x.required_permission) (all_levels entries) h in
    sym (ap passes g) ∙ here
level_at (x ∷ entries) (suc i) e h g =
    let (here, rest) = and_true (level_test x.required_permission) (all_levels entries) h in
    level_at entries i e rest g

check-login :
    (ctx : UserContext) (r : ℕ)
    → level_test r ≡ true
    → check_permission_user (some (login_permission ctx)) r
      ≡ ((ctx.group_id == 0) || (r == permission_read))
unfolding check_permission_user login_permission
check-login ctx r h =
    let (admin, reader) =
      and_true (bit_and permission_admin r == r)
        (agree (bit_and permission_read r == r) (r == permission_read)) h in
    by_group (ctx.group_id == 0) admin (agree_eq _ _ reader)
  where
    by_group :
        (b : Bool)
        → (bit_and permission_admin r == r) ≡ true
        → (bit_and permission_read r == r) ≡ (r == permission_read)
        → (bit_and (if b then permission_admin else permission_read) r == r)
          ≡ (b || (r == permission_read))
    by_group true a k = a
    by_group false a k = k

-- Of a node with the program's table, a user who has logged in reaches the operation of an index,
-- here or as a remote call, if the group is 0 or the operation needs READ, and is denied otherwise.
pub login-outcome :
    (local_mac : Text) (node : Node) (i : ℕ) (ctx : UserContext) (e : PermissionMap)
    → node.perm_map ≡ some global_perm_map
    → get_elem? global_perm_map i ≡ some e
    → interface_wrapper local_mac (some node) true i (some (login_permission ctx)) ≡ (
        if (ctx.group_id == 0) || (e.required_permission == permission_read)
        then local_or_remote local_mac node
        else denied)
unfolding interface_wrapper
login-outcome local_mac node i ctx e m g =
    ap (looked_up local_mac node (login_permission ctx) i) m
    ∙ ap (permitted local_mac node (login_permission ctx)) g
    ∙ ap (λ b. if b then local_or_remote local_mac node else denied)
        (check-login ctx e.required_permission (level_at global_perm_map i e table_levels g))
