-- ===== src/Users.antt =====
-- Users: the requests under /user of src/wtsl_core/user/wtsl_core_user_manager.c, the statements of
-- src/wtsl_core/db/wtsl_core_db.c that they run, and the context that
-- src/wtsl_core/protocol/http/wtsl_core_http_restful_api.c keeps for requests about nodes.
-- sqlite does what the statements say; whether it takes a statement is an input, and so are the
-- token that is generated and what a pointer that is not set points to.
mod Db
pub mod Table
pub mod Routes
pub mod Requests
mod Examples
unfoldable pub use Db.*
use wtsl_app.Base.{
  ℕ, zero, suc, ◌+◌, Bool, true, false, not, ◌&&◌, ◌||◌, Option, none, some, List, [], ◌∷◌, ◌++◌,
  ◌==◌, if◌then◌else◌, length, drop, Text, text_eq, codes,
}
use wtsl_app.Permission.{UserContext, login_permission}

-- An item of the JSON object: not there, no string, or a string.
pub data Field : Type 0 where
  absent : Field
  no_string : Field
  string : Text → Field

pub record Body : Type 0 where
  pub username : Field
  pub password : Field
  pub oldpassword : Field
  pub newpassword : Field

-- What the request meets: the object, none if the body is no JSON, the contents of the pointers user
-- and pwd before they are set, the token, and whether sqlite takes the statement that writes.
pub record UserRequest : Type 0 where
  pub body : Option Body
  pub stack_user : Option Text
  pub stack_pwd : Option Text
  pub new_token : Text
  pub takes : Bool

pub data UserReply : Type 0 where
  no_reply : UserReply
  err_param : UserReply
  err_user_is_not_existed : UserReply
  err_user_is_existed : UserReply
  logged_in : LoginContext → UserReply
  -- none is the contents of variables that were not set
  registered : Text → Option (ℕ × ℕ) → UserReply
  changed : Text → UserReply

-- A pointer keeps its contents if the item is not there.
abbrev pub pointer : Option Text → Field → Option Text
pointer stack Field.absent = stack
pointer stack Field.no_string = none
pointer stack (Field.string t) = some t

pub record Users : Type 0 where
  pub db : UserDb
  pub ctx : LoginContext

abbrev with_permission : LoginContext → LoginContext
with_permission ctx = record ctx { user = login_permission ctx.user }

-- The context after a login of the user.
unfoldable pub logged_ctx : UserDb → Text → Text → LoginContext → LoginContext
unfolding db_get_user_ctx login_permission
logged_ctx db user token ctx =
    with_permission (db_get_user_ctx db user (record ctx { token = token }))

abbrev login_as : UserRequest → Users → Option Text → Option Text → UserReply × Users
login_as r s (some user) (some pwd) =
    let ctx = logged_ctx s.db user r.new_token s.ctx in
    if db_user_exists s.db user
    then (if db_check_password s.db user pwd
        then (
          UserReply.logged_in ctx,
          record { db = db_update_user_token r.takes s.db user r.new_token; ctx = ctx },
        )
        else (UserReply.err_param, s))
    else (UserReply.err_user_is_not_existed, s)
login_as r s _ _ = (UserReply.err_param, s)

abbrev login_body : UserRequest → Users → Option Body → UserReply × Users
login_body r s none = (UserReply.err_param, s)
login_body r s (some b) =
    login_as r s (pointer r.stack_user b.username) (pointer r.stack_pwd b.password)

unfoldable pub wtsl_core_user_login : UserRequest → Users → UserReply × Users
unfolding db_user_exists db_check_password db_update_user_token
wtsl_core_user_login r s = login_body r s r.body

abbrev register_as : UserRequest → Users → Option Text → Option Text → UserReply × Users
register_as r s (some user) (some pwd) =
    let db = db_register r.takes s.db user 1000 pwd in
    if db_user_exists s.db user
    then (UserReply.err_user_is_existed, s)
    else (UserReply.registered user (db_get_register_resp db user), record s { db = db })
register_as r s _ _ = (UserReply.err_param, s)

abbrev register_body : UserRequest → Users → Option Body → UserReply × Users
register_body r s none = (UserReply.err_param, s)
register_body r s (some b) =
    register_as r s (pointer r.stack_user b.username) (pointer r.stack_pwd b.password)

unfoldable pub wtsl_core_user_register : UserRequest → Users → UserReply × Users
unfolding db_user_exists db_register db_get_register_resp
wtsl_core_user_register r s = register_body r s r.body

-- The new password, none if the item is not there although an old one is: it is read through NULL.
abbrev new_password : Option Text → Body → Option (Option Text)
new_password pwd b = elim b.oldpassword [
  | Field.absent ↦ some pwd
  | _ ↦ elim b.newpassword [
    | Field.absent ↦ none
    | Field.no_string ↦ some none
    | Field.string t ↦ some (some t)
  ]
]

abbrev change_to : UserRequest → Users → Text → Option (Option Text) → Option (UserReply × Users)
change_to r s user none = none
change_to r s user (some pwd) =
    some (UserReply.changed user, record s { db = db_change_password r.takes s.db user pwd })

abbrev change_as :
    UserRequest → Users → Body → Option Text → Option Text → Option (UserReply × Users)
change_as r s b (some user) (some pwd) =
    if db_check_password s.db user pwd
    then change_to r s user (new_password (some pwd) b)
    else some (UserReply.err_param, s)
change_as r s b _ _ = some (UserReply.err_param, s)

abbrev change_body : UserRequest → Users → Option Body → Option (UserReply × Users)
change_body r s none = some (UserReply.err_param, s)
change_body r s (some b) =
    change_as r s b (pointer r.stack_user b.username) (pointer r.stack_pwd b.oldpassword)

-- none is a read through NULL.
unfoldable pub wtsl_core_user_change_pwd : UserRequest → Users → Option (UserReply × Users)
unfolding db_check_password db_change_password
wtsl_core_user_change_pwd r s = change_body r s r.body
