-- ===== src/Rest.antt =====
-- Rest: the requests of src/wtsl_core/protocol/http/wtsl_core_http_restful_api.c, GET and POST, from
-- the URL to the operation of a node or to the user manager. The operations themselves are called
-- through the interface table of the node, so they are inputs; so are atoi and the JSON printer. The
-- code under OLD_API, which is not defined, is left out.
pub mod Get
pub mod Post
pub mod Tokens
pub mod Reader
pub mod Muted
pub mod Kept
pub mod Login
pub mod Paths
pub mod Answers
pub mod Outcomes
pub mod Ways
pub mod Faults
mod Examples
use wtsl_app.Base.{
  ℕ, zero, suc, Bool, true, false, Option, none, some, List, [], ◌∷◌, ◌++◌, ◌==◌, if◌then◌else◌,
  get_elem?, Text, String, codes, text_eq, strncmp_eq, c_string,
}
use wtsl_app.Permission.{PermissionMap, Node, Outcome, global_perm_map, interface_wrapper}
use wtsl_app.Nodes.{Ptr, NodeList, Run, ◌>>=◌, load, WtslNode}
use wtsl_app.Users.{UserReply, UserRequest}
use wtsl_app.Users.Routes.{Server}

abbrev pub close_token : Text → List Text → List Text
close_token [] rest = rest
close_token (c ∷ word) rest = (c ∷ word) ∷ rest

-- The pieces that strtok gives at the slashes, behind a piece begun with `word`.
abbrev pub tokens : Text → Text → List Text
tokens word [] = close_token word []
tokens word (c ∷ url) =
    let closed = close_token word (tokens [] url) in
    let longer = tokens (word ++ c ∷ []) url in if c == 47 then closed else longer

-- An operation gets its data, for a GET the buffer, and gives what it returns, none for NULL, and
-- the data that it leaves.
abbrev pub Operation : Type 0
Operation = Text → Option Text × Text

-- What a node points to: its table of permissions and its table of operations, by their names.
pub record NodeTables : Type 0 where
  pub perm_map : Option (List PermissionMap)
  pub interface : Option (Text → Option Operation)

pub record Platform : Type 0 where
  pub local_mac : Text
  pub tables : Ptr → NodeTables
  pub atoi : Text → ℕ
  pub print : UserReply → Option Text

-- The users with the context for nodes, the known nodes, and the buffer `recv_bss` of the GETs.
pub record Gateway : Type 0 where
  pub server : Server
  pub nodes : NodeList
  pub buffer : Text

pub record ApiRet : Type 0 where
  pub ok : Bool
  pub content : Option Text

-- `list_get(g_url_list, i)->str`
abbrev text_at : Option Text → Run Text
text_at none = Run.fault
text_at (some t) = Run.value t

abbrev pub url_token : List Text → ℕ → Run Text
url_token urls i = text_at (get_elem? urls i)

-- The test in front of an operation: strcmp, or strncmp with a length.
pub data Match : Type 0 where
  whole : Match
  within : ℕ → Match

abbrev pub matches : Match → Text → Text → Bool
matches Match.whole s name = text_eq s name
matches (Match.within n) s name = strncmp_eq s name n

-- A branch: its test, and the operation that it calls.
pub record Branch : Type 0 where
  pub test : Match
  pub name : Text
  pub func : Text
  -- the buffer is returned instead of what the operation returns
  pub gives_buffer : Bool

abbrev pub branch : Match → String → String → Bool → Branch
branch test name func gives_buffer = record {
  test = test;
  name = codes name;
  func = codes func;
  gives_buffer = gives_buffer;
}

-- The first branch whose test the name passes.
abbrev pub choose_branch : List Branch → Text → Option Branch
choose_branch [] s = none
choose_branch (b ∷ branches) s =
    let further = choose_branch branches s in if matches b.test s b.name then some b else further

-- `FUNC_name`
abbrev pub func_index : List PermissionMap → Text → ℕ
func_index [] name = 0
func_index (e ∷ entries) name =
    let rest = suc (func_index entries name) in if text_eq e.func_name name then 0 else rest

abbrev pub has_operation : Option Operation → Bool
has_operation none = false
has_operation (some f) = true

abbrev pub apply : Option Operation → Text → Option Text × Text
apply none input = (none, input)
apply (some f) input = f input

-- What the wrapper returns.
abbrev pub wrapped : Outcome → Option Operation → Text → Run (Option Text × Text)
wrapped Outcome.crashed f input = Run.fault
wrapped Outcome.unlisted f input = Run.fault
wrapped Outcome.executed f input = Run.value (apply f input)
wrapped Outcome.invalid f input = Run.value (none, input)
wrapped Outcome.denied f input = Run.value (none, input)
wrapped Outcome.remote f input = Run.value (none, input)

abbrev pub as_node : WtslNode → NodeTables → Node
as_node n t = record { mac = c_string n.info.mac; perm_map = t.perm_map }

abbrev pub call_in :
    Platform
    → Server
    → WtslNode
    → NodeTables
    → Option (Text → Option Operation)
    → Text
    → Text
    → Run (Option Text × Text)
call_in env s n t none func input = Run.fault
call_in env s n t (some ops) func input =
    let index = func_index global_perm_map func in
    let outcome =
      interface_wrapper env.local_mac (some (as_node n t)) (has_operation (ops func)) index
        (some s.rest_ctx.user) in
    wrapped outcome (ops func) input

-- CALL_INTERFACE for the node at the address.
unfoldable pub call_node_function :
    Platform → Gateway → Ptr → Text → Text → Run (Option Text × Text)
unfolding c_string interface_wrapper
call_node_function env s p func input = load s.nodes.heap p >>= λ c.
    call_in env s.server c.node (env.tables p) (env.tables p).interface func input
