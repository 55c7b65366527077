-- ===== src/Users/Db.antt =====
-- The statements of src/wtsl_core/db/wtsl_core_db.c that requests of users run, and the context of the
-- user manager that one of them fills.
use wtsl_app.Base.{
  ℕ, ◌+◌, Bool, true, false, ◌||◌, Option, none, some, List, [], ◌∷◌, ◌++◌, ◌==◌, if◌then◌else◌,
  length, Text, text_eq,
}
use wtsl_app.Permission.{UserContext}

-- A row of the table user, without the columns that no request reads.
pub record User : Type 0 where
  pub id : ℕ
  pub username : Text
  pub password : Text
  pub gid : ℕ
  pub token : Option Text
  pub expire : ℕ

-- next_id is larger than all ids: AUTOINCREMENT.
pub record UserDb : Type 0 where
  pub rows : List User
  pub next_id : ℕ

-- The row that `WHERE username=?` gives first.
unfoldable pub find_user : List User → Text → Option User
find_user [] name = none
find_user (u ∷ rows) name = if text_eq u.username name then some u else find_user rows name

abbrev pub is_row : Option User → Bool
is_row none = false
is_row (some u) = true

unfoldable pub db_user_exists : UserDb → Text → Bool
unfolding find_user
db_user_exists db name = is_row (find_user db.rows name)

-- takes says whether sqlite takes the statement.
unfoldable pub db_register : Bool → UserDb → Text → ℕ → Text → UserDb
db_register takes db user gid pwd =
    let row : User = record {
      id = db.next_id;
      username = user;
      password = pwd;
      gid = gid;
      token = none;
      expire = 1699999999;
    } in
    if (length user == 0) || (length pwd == 0)
    then db
    else (if takes then record { rows = db.rows ++ row ∷ []; next_id = db.next_id + 1 } else db)

abbrev pub password_is : Text → Option User → Bool
password_is pwd none = false
password_is pwd (some u) = text_eq pwd u.password

unfoldable pub db_check_password : UserDb → Text → Text → Bool
unfolding find_user
db_check_password db user pwd = password_is pwd (find_user db.rows user)

-- `UPDATE user SET ... WHERE username=?`
unfoldable pub update_rows : (User → User) → Text → List User → List User
update_rows f name [] = []
update_rows f name (u ∷ rows) =
    let rest = update_rows f name rows in (if text_eq u.username name then f u else u) ∷ rest

abbrev pub set_token : Text → User → User
set_token token u = record u { token = some token }

abbrev pub set_password : Text → User → User
set_password pwd u = record u { password = pwd }

unfoldable pub db_update_user_token : Bool → UserDb → Text → Text → UserDb
unfolding update_rows
db_update_user_token takes db user token =
    if takes then record db { rows = update_rows (set_token token) user db.rows } else db

-- The column password is NOT NULL.
unfoldable pub db_change_password : Bool → UserDb → Text → Option Text → UserDb
unfolding update_rows
db_change_password takes db user none = db
db_change_password takes db user (some pwd) =
    if takes then record db { rows = update_rows (set_password pwd) user db.rows } else db

-- The global context of the user manager.
pub record LoginContext : Type 0 where
  pub user : UserContext
  pub expire : ℕ
  pub token : Text

abbrev pub context_of : LoginContext → Option User → LoginContext
context_of ctx none = ctx
context_of ctx (some u) = record ctx {
  user = record ctx.user { user_id = u.id; group_id = u.gid };
  expire = u.expire;
}

unfoldable pub db_get_user_ctx : UserDb → Text → LoginContext → LoginContext
unfolding find_user
db_get_user_ctx db user ctx = context_of ctx (find_user db.rows user)

abbrev pub ids_of : Option User → Option (ℕ × ℕ)
ids_of none = none
ids_of (some u) = some (u.id, u.gid)

-- db_get_register_resp returns 0 whether or not the row is there.
unfoldable pub db_get_register_resp : UserDb → Text → Option (ℕ × ℕ)
unfolding find_user
db_get_register_resp db user = ids_of (find_user db.rows user)
