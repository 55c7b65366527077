-- ===== src/Users/Examples.antt =====
-- Examples and tests of the requests of users.
use wtsl_app.Base.{true, Option, none, some, List, [], ◌∷◌, ◌≡◌, refl, arith, Text, codes, map}
use wtsl_app.Permission.{Node, Outcome, global_perm_map}
use wtsl_app.Users.{User, UserRequest, UserReply, LoginContext, find_user, wtsl_core_user_register}
use wtsl_app.Users.Table.{IsDb}
use wtsl_app.Users.Routes.{Server, call_interface, post_all}
use wtsl_app.Users.Requests.{login_url, login_request, logged_server}

-- The row that the database begins with.
abbrev admin : User
admin = record {
  id = 1;
  username = codes "admin";
  password = codes "123456";
  gid = 0;
  token = none;
  expire = 1699999999;
}

abbrev no_context : LoginContext
no_context = record {
  user = record { user_id = 0; group_id = 0; permission = 0 };
  expire = 0;
  token = [];
}

abbrev start : Server
start = record {
  users = record { db = record { rows = admin ∷ []; next_id = 2 }; ctx = no_context };
  rest_ctx = no_context;
}

start-IsDb : IsDb start.users.db
unfolding IsDb
start-IsDb = (tt, tt, omega arith, tt)

abbrev register_request : Text → Text → UserRequest
register_request name pwd = record (login_request name pwd [] true) { stack_user = none }

abbrev requests : List (Text × UserRequest)
requests =
    (codes "/api/v1/user/register", register_request (codes "eve") (codes "pw"))
    ∷ (login_url, login_request (codes "eve") (codes "pw") (codes "t1") true)
    ∷ []

names_of : Option Server → List Text
names_of none = []
names_of (some s) = map (λ u. u.username) s.users.db.rows

names_test : names_of (post_all requests start) ≡ codes "admin" ∷ codes "eve" ∷ []
unfolding names_of post_all find_user
names_test = refl

abbrev gateway : Node
gateway = record { mac = codes "00:01"; perm_map = some global_perm_map }

-- The administrator's first request after the login is denied.
denied_after_login :
    call_interface
      (codes "00:01")
      (some gateway)
      0
      (logged_server start admin (codes "admin") true (codes "t0"))
    ≡ Outcome.denied
unfolding call_interface global_perm_map
denied_after_login = refl

-- A registration with an empty password is reported as done, and nobody is registered.
empty_password :
    wtsl_core_user_register (register_request (codes "eve") []) start.users
    ≡ (UserReply.registered (codes "eve") none, start.users)
unfolding wtsl_core_user_register find_user
empty_password = refl
