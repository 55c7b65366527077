-- ===== src/Rest/Reader.antt =====
-- What a user who has logged in and is no administrator gets from the operations of nodes.
use wtsl_app.Base.{
  ℕ, Bool, true, false, Option, none, some, ◌==◌, ◌≡◌, refl, sym, ap, ◌∙◌, if◌then◌else◌, get_elem?,
  Text, Bool-cases, inl, inr,
}
use wtsl_app.Permission.{
  UserContext, PermissionMap, Outcome, permission_read, global_perm_map, login_permission,
  interface_wrapper,
}
use wtsl_app.Permission.Levels.{login-outcome}
use wtsl_app.Nodes.{Ptr, WtslNode, Run, ◌>>=◌, load}
use wtsl_app.Users.Routes.{Server}
use wtsl_app.Rest.{
  Platform, Gateway, NodeTables, Operation, func_index, as_node, wrapped, has_operation, call_in,
  call_node_function,
}

-- The level is READ, or there is none.
abbrev pub at_most_read : Option PermissionMap → Bool
at_most_read none = true
at_most_read (some e) = e.required_permission == permission_read

abbrev pub is_read : Text → Bool
is_read func = at_most_read (get_elem? global_perm_map (func_index global_perm_map func))

abbrev pub muted_ops : Option (Text → Option Operation) → Option (Text → Option Operation)
muted_ops none = none
muted_ops (some ops) = some (λ func. if is_read func then ops func else none)

-- The platform without the operations that need more than READ.
abbrev pub mute : Platform → Platform
mute env = record env {
  tables = λ p. record {
    perm_map = (env.tables p).perm_map;
    interface = muted_ops (env.tables p).interface;
  };
}

-- The context of nodes is that of a login without the group 0.
pub record IsReader (s : Server) : Type 0 where
  pub ctx : UserContext
  pub is_login : s.rest_ctx.user ≡ login_permission ctx
  pub no_admin : (ctx.group_id == 0) ≡ false

-- Every node has the table of the program.
abbrev pub HasTables : Platform → Type 0
HasTables env = (p : Ptr) → (env.tables p).perm_map ≡ some global_perm_map

denied_lem :
    (env : Platform) (s : Server) (n : WtslNode) (t : NodeTables) (i : ℕ) (e : PermissionMap)
    → IsReader s
    → t.perm_map ≡ some global_perm_map
    → get_elem? global_perm_map i ≡ some e
    → (e.required_permission == permission_read) ≡ false
    → interface_wrapper env.local_mac (some (as_node n t)) true i (some s.rest_ctx.user)
      ≡ Outcome.denied
denied_lem env s n t i e r m g f =
    ap (λ u. interface_wrapper env.local_mac (some (as_node n t)) true i (some u)) r.is_login
    ∙ login-outcome env.local_mac (as_node n t) i r.ctx e m g
    ∙ rw (r.no_admin, f) refl

-- An operation that needs more is not reached.
wrapped_lem :
    (env : Platform) (s : Server) (n : WtslNode) (t : NodeTables) (i : ℕ) (e : PermissionMap)
    (f : Option Operation) (input : Text)
    → IsReader s
    → t.perm_map ≡ some global_perm_map
    → get_elem? global_perm_map i ≡ some e
    → (e.required_permission == permission_read) ≡ false
    → wrapped
        (interface_wrapper env.local_mac
          (some (as_node n t))
          (has_operation f)
          i
          (some s.rest_ctx.user))
        f
        input
      ≡ Run.value (none, input)
unfolding interface_wrapper
wrapped_lem env s n t i e none input r m g k = refl
wrapped_lem env s n t i e (some f) input r m g k =
    ap (λ o. wrapped o (some f) input) (denied_lem env s n t i e r m g k)

-- A level that is more than READ.
more_than_read :
    (o : Option PermissionMap)
    → at_most_read o ≡ false
    → (e : PermissionMap) × (o ≡ some e) × ((e.required_permission == permission_read) ≡ false)
more_than_read none h = cc
more_than_read (some e) h = (e, refl, h)

kept : (b : Bool) (f : Option Operation) → b ≡ true → f ≡ (if b then f else none)
kept b f h = rw h refl

dropped : (b : Bool) (f : Option Operation) → b ≡ false → none ≡ (if b then f else none)
dropped b f h = rw h refl

-- The wrapper with an operation of that index.
abbrev reach :
    Platform
    → Server
    → WtslNode
    → NodeTables
    → ℕ
    → Text
    → Option Operation
    → Run (Option Text × Text)
reach env s n t i input f =
    wrapped
      (interface_wrapper env.local_mac (some (as_node n t)) (has_operation f) i
        (some s.rest_ctx.user))
      f input

reach-none :
    (env : Platform) (s : Server) (n : WtslNode) (t : NodeTables) (i : ℕ) (input : Text)
    → reach env s n t i input none ≡ Run.value (none, input)
unfolding interface_wrapper
reach-none env s n t i input = refl

reach-if :
    (env : Platform) (s : Server) (n : WtslNode) (t : NodeTables) (i : ℕ) (input : Text)
    (f : Option Operation)
    → IsReader s
    → t.perm_map ≡ some global_perm_map
    → reach env s n t i input f
      ≡ reach env s n t i input (if at_most_read (get_elem? global_perm_map i) then f else none)
reach-if env s n t i input f r m = elim (Bool-cases (at_most_read (get_elem? global_perm_map i))) [
  | inl is ↦ ap (reach env s n t i input) (kept _ f is)
  | inr is ↦
      let (e, at, more) = more_than_read (get_elem? global_perm_map i) is in
      wrapped_lem env s n t i e f input r m at more
      ∙ sym (reach-none env s n t i input)
      ∙ ap (reach env s n t i input) (dropped _ f is)
]

module _ {A B : Type 0} where
  pub bind-ext : (m : Run A) (f g : A → Run B) → ((a : A) → f a ≡ g a) → (m >>= f) ≡ (m >>= g)
  bind-ext (Run.value a) f g h = h a
  bind-ext Run.fault f g h = refl
  bind-ext Run.out_of_fuel f g h = refl

  pub bind-left : (m n : Run A) (f : A → Run B) → m ≡ n → (m >>= f) ≡ (n >>= f)
  bind-left m n f e = ap (λ x. x >>= f) e

call_in_muted :
    (env : Platform) (s : Server) (n : WtslNode) (t : NodeTables)
    (o : Option (Text → Option Operation)) (func input : Text)
    → IsReader s
    → t.perm_map ≡ some global_perm_map
    → call_in env s n t o func input ≡ call_in env s n t (muted_ops o) func input
call_in_muted env s n t none func input r m = refl
call_in_muted env s n t (some ops) func input r m =
    reach-if env s n t (func_index global_perm_map func) input (ops func) r m

pub call_muted :
    (env : Platform) (s : Gateway) (p : Ptr) (func input : Text)
    → IsReader s.server
    → HasTables env
    → call_node_function env s p func input ≡ call_node_function (mute env) s p func input
unfolding call_node_function
call_muted env s p func input r m = bind-ext (load s.nodes.heap p) _ _ (λ c.
    call_in_muted env s.server c.node (env.tables p) (env.tables p).interface func input r (m p))
