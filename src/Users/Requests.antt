-- ===== src/Users/Requests.antt =====
-- What requests of users do to the table of users and to the contexts.
use wtsl_app.Base.{
  Bool, true, false, Option, none, some, List, [], ◌∷◌, ◌≡◌, refl, ap, ◌∙◌, if◌then◌else◌, ltb,
  length, drop, Text, text_eq_refl, codes, Bool-cases, inl, inr,
}
use wtsl_app.Permission.{login_permission}
use wtsl_app.Users.{
  User, Users, UserRequest, UserReply, LoginContext, Body, Field, find_user, db_user_exists,
  db_check_password, db_update_user_token, logged_ctx, pointer, login_as, register_as, change_as,
  change_to, new_password, login_body, register_body, change_body,
}
use wtsl_app.Users.Table.{IsDb, register-IsDb, token-IsDb, password-IsDb}
use wtsl_app.Users.Routes.{
  Server, Handler, route, run_handler, wtsl_core_post_users_functions, answered, then_post,
  post_all,
}

either-IsDb :
    (b : Bool) (x y : UserReply × Users)
    → IsDb x.1.db
    → IsDb y.1.db
    → IsDb (if b then x else y).1.db
either-IsDb true x y hx hy = hx
either-IsDb false x y hx hy = hy

login_as-IsDb :
    (r : UserRequest) (s : Users) (user pwd : Option Text)
    → IsDb s.db
    → IsDb (login_as r s user pwd).1.db
login_as-IsDb r s none pwd h = h
login_as-IsDb r s (some user) none h = h
login_as-IsDb r s (some user) (some pwd) h =
    let ctx = logged_ctx s.db user r.new_token s.ctx in
    let done : UserReply × Users = (
      UserReply.logged_in ctx,
      record { db = db_update_user_token r.takes s.db user r.new_token; ctx = ctx },
    ) in
    either-IsDb (db_user_exists s.db user)
      (if db_check_password s.db user pwd then done else (UserReply.err_param, s))
      (UserReply.err_user_is_not_existed, s)
      (either-IsDb (db_check_password s.db user pwd) done (UserReply.err_param, s)
        (token-IsDb r.takes s.db user r.new_token h) h)
      h

register_as-IsDb :
    (r : UserRequest) (s : Users) (user pwd : Option Text)
    → IsDb s.db
    → IsDb (register_as r s user pwd).1.db
register_as-IsDb r s none pwd h = h
register_as-IsDb r s (some user) none h = h
register_as-IsDb r s (some user) (some pwd) h = elim (Bool-cases (db_user_exists s.db user)) [
  | inl is ↦ rw is h
  | inr is ↦ rw is (register-IsDb r.takes s.db user 1000 pwd h is)
]

-- A run that ends has a table in order.
EndsInOrder : Option (UserReply × Users) → Type 0
EndsInOrder none = Unit
EndsInOrder (some (reply, s)) = IsDb s.db

change_to-InOrder :
    (r : UserRequest) (s : Users) (user : Text) (pwd : Option (Option Text))
    → IsDb s.db
    → EndsInOrder (change_to r s user pwd)
unfolding EndsInOrder
change_to-InOrder r s user none h = tt
change_to-InOrder r s user (some pwd) h = password-IsDb r.takes s.db user pwd h

change_as-InOrder :
    (r : UserRequest) (s : Users) (b : Body) (user pwd : Option Text)
    → IsDb s.db
    → EndsInOrder (change_as r s b user pwd)
unfolding EndsInOrder
change_as-InOrder r s b none pwd h = h
change_as-InOrder r s b (some user) none h = h
change_as-InOrder r s b (some user) (some pwd) h =
    elim (Bool-cases (db_check_password s.db user pwd)) [
      | inl is ↦ rw is (change_to-InOrder r s user (new_password (some pwd) b) h)
      | inr is ↦ rw is h
    ]

login-IsDb :
    (r : UserRequest) (o : Option Body) (s : Users) → IsDb s.db → IsDb (login_body r s o).1.db
login-IsDb r none s h = h
login-IsDb r (some b) s h =
    login_as-IsDb r s (pointer r.stack_user b.username) (pointer r.stack_pwd b.password) h

register-InOrder :
    (r : UserRequest) (o : Option Body) (s : Users) → IsDb s.db → IsDb (register_body r s o).1.db
register-InOrder r none s h = h
register-InOrder r (some b) s h =
    register_as-IsDb r s (pointer r.stack_user b.username) (pointer r.stack_pwd b.password) h

change-InOrder :
    (r : UserRequest) (o : Option Body) (s : Users) → IsDb s.db → EndsInOrder (change_body r s o)
unfolding EndsInOrder
change-InOrder r none s h = h
change-InOrder r (some b) s h =
    change_as-InOrder r s b (pointer r.stack_user b.username) (pointer r.stack_pwd b.oldpassword) h

handler-InOrder :
    (o : Option Handler) (r : UserRequest) (s : Users) → IsDb s.db → EndsInOrder (run_handler o r s)
unfolding run_handler EndsInOrder
handler-InOrder none r s h = h
handler-InOrder (some Handler.login) r s h = login-IsDb r r.body s h
handler-InOrder (some Handler.register) r s h = register-InOrder r r.body s h
handler-InOrder (some Handler.change_pwd) r s h = change-InOrder r r.body s h
handler-InOrder (some Handler.empty) r s h = h

-- A run of requests that ends has a table in order.
pub ServesInOrder : Option Server → Type 0
ServesInOrder none = Unit
ServesInOrder (some s) = IsDb s.users.db

then-InOrder :
    (ctx : LoginContext) (o : Option (UserReply × Users)) (f : Server → Option Server)
    → EndsInOrder o
    → ((s : Server) → IsDb s.users.db → ServesInOrder (f s))
    → ServesInOrder (then_post (answered ctx o) f)
unfolding EndsInOrder ServesInOrder
then-InOrder ctx none f h k = tt
then-InOrder ctx (some (reply, users)) f h k = k (record { users = users; rest_ctx = ctx }) h

nothing-InOrder : ServesInOrder none
unfolding ServesInOrder
nothing-InOrder = tt

post-InOrder :
    (url : Text) (r : UserRequest) (s : Server) (f : Server → Option Server)
    → IsDb s.users.db
    → ((s' : Server) → IsDb s'.users.db → ServesInOrder (f s'))
    → ServesInOrder (then_post (wtsl_core_post_users_functions url r s) f)
unfolding wtsl_core_post_users_functions
post-InOrder url r s f h k = elim (Bool-cases (ltb (length url) 7)) [
  | inl is ↦ rw is nothing-InOrder
  | inr is ↦ rw is (
      then-InOrder s.users.ctx (run_handler (route (drop 7 url)) r s.users) f
        (handler-InOrder (route (drop 7 url)) r s.users h) k)
]

-- Over any requests of users, whatever they carry and whatever sqlite takes, the names and the ids in the
-- table stay distinct and the ids below the next one, until a request reads through NULL or behind
-- its URL.
pub post_all-ServesInOrder :
    (requests : List (Text × UserRequest)) (s : Server)
    → IsDb s.users.db
    → ServesInOrder (post_all requests s)
unfolding post_all ServesInOrder
post_all-ServesInOrder [] s h = h
post_all-ServesInOrder ((url, r) ∷ requests) s h =
    post-InOrder url r s (post_all requests) h (post_all-ServesInOrder requests)

abbrev pub login_url : Text
login_url = codes "/api/v1/user/login"

-- A login request.
abbrev pub login_request : Text → Text → Text → Bool → UserRequest
login_request name pwd token takes = record {
  body = some (record {
    username = Field.string name;
    password = Field.string pwd;
    oldpassword = Field.absent;
    newpassword = Field.absent;
  });
  stack_user = none;
  stack_pwd = none;
  new_token = token;
  takes = takes;
}

-- The context of the user with the row.
abbrev pub context_for : User → Text → LoginContext
context_for u token = record {
  user = login_permission (record { user_id = u.id; group_id = u.gid; permission = 0 });
  expire = u.expire;
  token = token;
}

login_accepted :
    (r : UserRequest) (s : Users) (name : Text) (u : User)
    → find_user s.db.rows name ≡ some u
    → login_as r s (some name) (some u.password) ≡ (
      UserReply.logged_in (context_for u r.new_token),
      record {
        db = db_update_user_token r.takes s.db name r.new_token;
        ctx = context_for u r.new_token;
      },
    )
unfolding db_user_exists db_check_password logged_ctx
login_accepted r s name u e = rw (e, text_eq_refl u.password) refl

-- What a login leaves.
abbrev pub logged_server : Server → User → Text → Bool → Text → Server
logged_server s u name takes token = record {
  users = record {
    db = db_update_user_token takes s.users.db name token;
    ctx = context_for u token;
  };
  rest_ctx = s.users.ctx;
}

pub login_done :
    (s : Server) (r : UserRequest) (name token : Text) (u : User) (takes : Bool)
    → find_user s.users.db.rows name ≡ some u
    → r ≡ login_request name u.password token takes
    → wtsl_core_post_users_functions login_url r s
      ≡ some (UserReply.logged_in (context_for u token), logged_server s u name takes token)
unfolding wtsl_core_post_users_functions
login_done s r name token u takes e is =
    ap (λ q. wtsl_core_post_users_functions login_url q s) is
    ∙ ap (λ q. answered s.users.ctx (some q))
        (login_accepted (login_request name u.password token takes) s.users name u e)
