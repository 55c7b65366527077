-- ===== src/Rest/Answers.antt =====
-- When a request about a node is answered, and when it reads through NULL.
use wtsl_app.Base.{
  ℕ, Bool, true, false, ◌&&◌, Option, none, some, List, [], ◌∷◌, ◌≡◌, refl, sym, if◌then◌else◌,
  get_elem?, Text, Bool-cases, inl, inr, arith,
}
use mathlib.Core.Path.{subst}
use wtsl_app.Permission.{
  UserContext, PermissionMap, Node, Outcome, global_perm_map, interface_wrapper,
  check_permission_user, denied, same_mac, local_or_remote, permitted, looked_up,
}
use wtsl_app.Nodes.{Ptr, WtslNode, Run, ◌>>=◌, load, set_node}
use wtsl_app.Nodes.Links.{Cells, IsNodeList}
use wtsl_app.Nodes.Search.{first, has_id, set_node-IsNodeList}
use wtsl_app.Rest.{
  Platform, Gateway, Operation, Branch, matches, choose_branch, func_index, as_node, wrapped,
  has_operation, call_in, call_node_function,
}
use wtsl_app.Rest.Get.{get_branches, qos_branches, acl_branches}
use wtsl_app.Rest.Post.{post_branches, firmware_branches, qos_ways, acl_ways}

-- The run ends, without a read through NULL.
abbrev pub Ends : {A : Type 0} → Run A → Type 0
Ends {A} r = (a : A) × (r ≡ Run.value a)

-- The nodes are a list in order, one has the id 0, and each has the tables of the program.
pub record IsServing (env : Platform) (s : Gateway) (cells : Cells) : Type 0 where
  pub links : IsNodeList s.nodes cells
  pub root : Ptr
  pub has_root : first (has_id 0) cells ≡ some root
  pub perm_maps : (p : Ptr) → (env.tables p).perm_map ≡ some global_perm_map
  pub interface : Ptr → Text → Option Operation
  pub has_interface : (p : Ptr) → (env.tables p).interface ≡ some (interface p)

abbrev pub is_some : {A : Type 0} → Option A → Bool
is_some none = false
is_some (some a) = true

-- The operation has its entry in the table of permissions.
abbrev pub is_listed : Text → Bool
is_listed func = is_some (get_elem? global_perm_map (func_index global_perm_map func))

abbrev pub all_listed : List Branch → Bool
all_listed [] = true
all_listed (b ∷ branches) = is_listed b.func && all_listed branches

both : (a b : Bool) → (a && b) ≡ true → (a ≡ true) × (b ≡ true)
both a b h = ground arith

some_injective : {a b : Branch} → some a ≡ some b → a ≡ b
some_injective e = cc

pub choose_listed :
    (branches : List Branch) (s : Text) (b : Branch)
    → all_listed branches ≡ true
    → choose_branch branches s ≡ some b
    → is_listed b.func ≡ true
choose_listed [] s b h e = cc
choose_listed (c ∷ branches) s b h e =
    let (here, rest) = both (is_listed c.func) (all_listed branches) h in
    elim (Bool-cases (matches c.test s c.name)) [
      | inl is ↦ subst (λ v. is_listed v.func ≡ true) (some_injective (rw is at e)) here
      | inr is ↦ choose_listed branches s b rest (rw is at e)
    ]

pub get_listed : all_listed get_branches ≡ true
unfolding get_branches global_perm_map
get_listed = refl

pub qos_listed : all_listed qos_branches ≡ true
unfolding qos_branches global_perm_map
qos_listed = refl

pub acl_listed : all_listed acl_branches ≡ true
unfolding acl_branches global_perm_map
acl_listed = refl

pub post_listed : all_listed post_branches ≡ true
unfolding post_branches global_perm_map
post_listed = refl

pub firmware_ways_listed : all_listed firmware_branches ≡ true
unfolding firmware_branches global_perm_map
firmware_ways_listed = refl

pub qos_ways_listed : all_listed qos_ways ≡ true
unfolding qos_ways global_perm_map
qos_ways_listed = refl

pub acl_ways_listed : all_listed acl_ways ≡ true
unfolding acl_ways global_perm_map
acl_ways_listed = refl

-- What the wrapper may give for an entry of the table.
Tame : Outcome → Type 0
Tame Outcome.crashed = ⊥
Tame Outcome.unlisted = ⊥
Tame _ = Unit

wrapped-Ends :
    (o : Outcome) (f : Option Operation) (input : Text) → Tame o → Ends (wrapped o f input)
unfolding Tame
wrapped-Ends Outcome.crashed f input h = absurd h
wrapped-Ends Outcome.unlisted f input h = absurd h
wrapped-Ends Outcome.invalid f input h = (_, refl)
wrapped-Ends Outcome.denied f input h = (_, refl)
wrapped-Ends Outcome.remote f input h = (_, refl)
wrapped-Ends Outcome.executed f input h = (_, refl)

if-Tame : (b : Bool) (x y : Outcome) → Tame x → Tame y → Tame (if b then x else y)
if-Tame true x y hx hy = hx
if-Tame false x y hx hy = hy

local-Tame : (mac : Text) (n : Node) → Tame (local_or_remote mac n)
unfolding Tame local_or_remote
local-Tame mac n = if-Tame (same_mac n.mac mac) Outcome.executed Outcome.remote tt tt

permitted-Tame :
    (mac : Text) (n : Node) (ctx : UserContext) (o : Option PermissionMap)
    → is_some o ≡ true
    → Tame (permitted mac n ctx o)
unfolding Tame
permitted-Tame mac n ctx none h = cc
permitted-Tame mac n ctx (some e) h =
    if-Tame (check_permission_user (some ctx) e.required_permission) (local_or_remote mac n) denied
      (local-Tame mac n) tt

wrapper-Tame :
    (mac : Text) (n : Node) (f : Bool) (i : ℕ) (ctx : UserContext)
    → n.perm_map ≡ some global_perm_map
    → is_some (get_elem? global_perm_map i) ≡ true
    → Tame (interface_wrapper mac (some n) f i (some ctx))
unfolding Tame interface_wrapper
wrapper-Tame mac n false i ctx m h = tt
wrapper-Tame mac n true i ctx m h =
    subst (λ v. Tame (looked_up mac n ctx i v)) (sym m)
      (permitted-Tame mac n ctx (get_elem? global_perm_map i) h)

pub bind-Ends :
    {A B : Type 0} (m : Run A) (f : A → Run B) → Ends m → ((a : A) → Ends (f a)) → Ends (m >>= f)
bind-Ends m f (a, e) h = subst (λ v. Ends (v >>= f)) (sym e) (h a)

left-Ends : {A B : Type 0} (m : Run A) (f : A → Run B) (b : B) → (m >>= f) ≡ Run.value b → Ends m
left-Ends (Run.value a) f b e = (a, refl)
left-Ends Run.fault f b e = cc
left-Ends Run.out_of_fuel f b e = cc

module _ (env : Platform) (s : Gateway) (cells : Cells) (serving : IsServing env s cells) where
  load-Ends :
      (test : WtslNode → Bool) (p : Ptr) → first test cells ≡ some p → Ends (load s.nodes.heap p)
  unfolding set_node
  load-Ends test p e =
      let (l, run, wf) = set_node-IsNodeList test (λ n. n) s.nodes p cells serving.links e in
      left-Ends (load s.nodes.heap p) _ l run

  pub call-Ends :
      (test : WtslNode → Bool) (p : Ptr) (func input : Text)
      → first test cells ≡ some p
      → is_listed func ≡ true
      → Ends (call_node_function env s p func input)
  unfolding call_node_function
  call-Ends test p func input e h = bind-Ends (load s.nodes.heap p) _ (load-Ends test p e) (λ c.
      subst (λ o. Ends (call_in env s.server c.node (env.tables p) o func input))
        (sym (serving.has_interface p))
        (wrapped-Ends _ (serving.interface p func) input (
          wrapper-Tame env.local_mac (as_node c.node (env.tables p))
            (has_operation (serving.interface p func)) (func_index global_perm_map func)
            s.server.rest_ctx.user (serving.perm_maps p) h)))
