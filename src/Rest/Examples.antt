-- ===== src/Rest/Examples.antt =====
-- Examples and tests of the requests.
use wtsl_app.Base.{
  ℕ, true, false, Option, none, some, List, [], ◌∷◌, ◌≡◌, refl, if◌then◌else◌, Text, codes, text_eq,
  get_or,
}
use wtsl_app.Permission.{global_perm_map, login_permission}
use wtsl_app.Nodes.{Ptr, null, WtslNode, Heap, cell, write, NodeList, Run}
use wtsl_app.Nodes.Links.{Cells, IsNodeList, ne_of_false}
use wtsl_app.Nodes.Search.{first, has_id}
use wtsl_app.Users.{LoginContext, User, find_user, logged_ctx}
use wtsl_app.Users.Requests.{login_request, login_url, context_for, logged_server}
use wtsl_app.Rest.{Platform, Gateway, Branch, Match, branch, Operation, choose_branch, tokens}
use wtsl_app.Rest.Get.{get_branches, wtcoreapi_parse_http_get_cmd}
use wtsl_app.Rest.Post.{
  post_branches, firmware_branches, qos_ways, acl_ways, PostData, wtcoreapi_parse_http_post_cmd,
}
use wtsl_app.Rest.Tokens.{join}
use wtsl_app.Rest.Reader.{mute, IsReader}
use wtsl_app.Rest.Muted.{reader_muted}
use wtsl_app.Rest.Kept.{Request, get, post, serve, serve_all}
use wtsl_app.Rest.Login.{login-behind}
use wtsl_app.Rest.Paths.{nodes_path, given_ret, as_user, word, get_given_again}
use wtsl_app.Rest.Answers.{Ends, IsServing}
use wtsl_app.Rest.Outcomes.{get-Ends}
use wtsl_app.Rest.Ways.{misses_way}
use wtsl_app.Rest.Faults.{post-outcome}

tokens_test : tokens [] (codes "//api/v1//nodes/") ≡ codes "api" ∷ codes "v1" ∷ codes "nodes" ∷ []
tokens_test = refl

abbrev root : WtslNode
root = record {
  id = 0;
  active = true;
  last_heartbeat = 1;
  addr = [];
  info = record { mac = codes "00:01"; others = [] };
}

abbrev nothing : Heap
nothing p = none

abbrev own_nodes : NodeList
own_nodes = record {
  heap = write nothing 3 (some (cell root null));
  head = 3;
  tail = 3;
  node_count = 1;
}

abbrev own_cells : Cells
own_cells = (3, root) ∷ []

own_nodes-IsNodeList : IsNodeList own_nodes own_cells
own_nodes-IsNodeList = record {
  links = (refl, ne_of_false 3 0 refl, tt, (null, refl, refl));
  tail_is_last = refl;
  count_is_length = refl;
}

-- Every operation leaves its text and returns it.
abbrev ops : Text → Option Operation
ops func = some (λ input. (some (codes "secret"), codes "secret"))

abbrev env : Platform
env = record {
  local_mac = codes "00:01";
  tables = λ p. record { perm_map = some global_perm_map; interface = some ops };
  atoi = λ t. if text_eq t (codes "0") then 0 else 9;
  print = λ reply. none;
}

-- A context of a user of the group.
abbrev context : ℕ → LoginContext
context gid = record {
  user = login_permission (record { user_id = 1; group_id = gid; permission = 0 });
  expire = 0;
  token = [];
}

abbrev no_login : LoginContext
no_login = record {
  user = record { user_id = 0; group_id = 0; permission = 0 };
  expire = 0;
  token = [];
}

abbrev gateway : LoginContext → Gateway
gateway ctx = record {
  server = record {
    users = record { db = record { rows = []; next_id = 1 }; ctx = ctx };
    rest_ctx = ctx;
  };
  nodes = own_nodes;
  buffer = [];
}

serving : (ctx : LoginContext) → IsServing env (gateway ctx) own_cells
unfolding first
serving ctx = record {
  links = own_nodes-IsNodeList;
  root = 3;
  has_root = refl;
  perm_maps = λ p. refl;
  interface = λ p. ops;
  has_interface = λ p. refl;
}

abbrev guest : Gateway
guest = gateway (context 1000)

guest-IsReader : IsReader guest.server
guest-IsReader = record {
  ctx = record { user_id = 1; group_id = 1000; permission = 0 };
  is_login = refl;
  no_admin = refl;
}

abbrev some_data : PostData
some_data = record { args = []; user = login_request [] [] [] false }

abbrev reboot_url : Text
reboot_url = codes "/api/v1/nodes/0/reboot"

reader_muted_example :
    (wtcoreapi_parse_http_get_cmd env guest reboot_url
      ≡ wtcoreapi_parse_http_get_cmd (mute env) guest reboot_url)
    × (wtcoreapi_parse_http_post_cmd env guest reboot_url some_data
        ≡ wtcoreapi_parse_http_post_cmd (mute env) guest reboot_url some_data)
reader_muted_example = reader_muted env guest reboot_url some_data guest-IsReader (λ p. refl)

get-Ends_example : Ends (wtcoreapi_parse_http_get_cmd env guest reboot_url)
get-Ends_example = get-Ends env guest own_cells reboot_url (serving (context 1000))

-- An administrator's GET, the answer to it, and the GET of somebody who has not logged in.
abbrev admin : Gateway
admin = gateway (context 0)

abbrev answered : Gateway
answered = record admin { buffer = codes "secret" }

abbrev basicinfo : Branch
basicinfo = branch (Match.within 9) "basicinfo" "get_node_basicinfo" true

basicinfo_chosen : choose_branch get_branches (codes "basicinfo") ≡ some basicinfo
unfolding get_branches
basicinfo_chosen = refl

basicinfo_answered :
    wtcoreapi_parse_http_get_cmd env admin (join (nodes_path (codes "0" ∷ codes "basicinfo" ∷ [])))
    ≡ Run.value (given_ret (codes "secret"), answered)
unfolding wtcoreapi_parse_http_get_cmd global_perm_map login_permission
basicinfo_answered = refl

get_given_again_example :
    wtcoreapi_parse_http_get_cmd env
      (as_user answered no_login)
      (join (nodes_path (codes "x" ∷ [])))
    ≡ Run.value (given_ret (codes "secret"), as_user answered no_login)
get_given_again_example =
    get_given_again env admin answered (codes "0") (codes "basicinfo") (codes "x") (codes "secret")
      basicinfo no_login (word (codes "0") refl, (word (codes "basicinfo") refl, tt))
      (word (codes "x") refl, tt) basicinfo_chosen refl basicinfo_answered

abbrev qos_url : Text
qos_url = codes "/api/v1/nodes/0/qos"

post-outcome_example :
    (misses_way (tokens [] qos_url) ≡ false
      → Ends (wtcoreapi_parse_http_post_cmd env admin qos_url some_data))
    × ((p : Ptr)
        → misses_way (tokens [] qos_url) ≡ true
        → first (has_id (env.atoi (get_or (tokens [] qos_url) 3 []))) own_cells ≡ some p
        → wtcoreapi_parse_http_post_cmd env admin qos_url some_data ≡ Run.fault)
post-outcome_example = post-outcome env admin own_cells qos_url some_data (serving (context 0)) refl

qos_misses : misses_way (tokens [] qos_url) ≡ true
unfolding post_branches firmware_branches qos_ways acl_ways
qos_misses = refl

-- The POST without a way reads through NULL.
qos_faults : wtcoreapi_parse_http_post_cmd env admin qos_url some_data ≡ Run.fault
unfolding first
qos_faults =
    (post-outcome env admin own_cells qos_url some_data (serving (context 0)) refl).1 3 qos_misses
      refl

abbrev db_admin : User
db_admin = record {
  id = 1;
  username = codes "admin";
  password = codes "123456";
  gid = 0;
  token = none;
  expire = 1699999999;
}

-- Nobody has logged in yet.
abbrev unused : Gateway
unused = record (gateway no_login) {
  server = record {
    users = record { db = record { rows = db_admin ∷ []; next_id = 2 }; ctx = no_login };
    rest_ctx = no_login;
  };
}

abbrev admin_login : PostData
admin_login = record {
  args = [];
  user = login_request (codes "admin") (codes "123456") (codes "t0") true;
}

abbrev userinfo_url : Text
userinfo_url = codes "/api/v1/user/get_userinfo"

abbrev others : List Request
others = get (codes "/api/v1/nodes/0/basicinfo") ∷ post reboot_url some_data ∷ []

abbrev logged_in : Gateway
logged_in = record unused {
  server = logged_server unused.server db_admin (codes "admin") true (codes "t0");
}

abbrev noticed : Gateway
noticed = record logged_in {
  server = record logged_in.server { rest_ctx = context_for db_admin (codes "t0") };
}

found_admin : find_user unused.server.users.db.rows (codes "admin") ≡ some db_admin
unfolding find_user
found_admin = refl

-- The administrator's requests behind the login are denied, so the buffer stays as it was.
others_denied : serve_all env (post login_url admin_login ∷ others) unused ≡ Run.value logged_in
unfolding serve_all global_perm_map logged_ctx
others_denied = refl

user_noticed : serve env (post userinfo_url some_data) logged_in ≡ Run.value noticed
unfolding serve
user_noticed = refl

login-behind_example :
    (logged_in.server.users.ctx ≡ context_for db_admin (codes "t0"))
    × (logged_in.server.rest_ctx ≡ no_login)
    × (noticed.server.rest_ctx ≡ context_for db_admin (codes "t0"))
login-behind_example =
    login-behind env unused logged_in noticed admin_login some_data others (codes "admin")
      (codes "t0") userinfo_url db_admin true found_admin refl (refl, (refl, tt)) others_denied refl
      refl user_noticed
