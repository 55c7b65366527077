-- ===== src/Users/Routes.antt =====
-- wtsl_core_post_users_functions of src/wtsl_core/protocol/http/wtsl_core_http_restful_api.c with the
-- route table of the user manager, and the context under which requests about nodes then run.
use wtsl_app.Base.{
  ℕ, Bool, true, Option, none, some, List, [], ◌∷◌, if◌then◌else◌, drop, length, ltb, Text, text_eq,
  codes,
}
use wtsl_app.Permission.{Node, Outcome, interface_wrapper}
use wtsl_app.Users.{
  Users, UserRequest, UserReply, LoginContext, wtsl_core_user_login, wtsl_core_user_register,
  wtsl_core_user_change_pwd,
}

-- The user manager with its context, and the copy that the interface keeps.
pub record Server : Type 0 where
  pub users : Users
  pub rest_ctx : LoginContext

pub data Handler : Type 0 where
  login : Handler
  register : Handler
  change_pwd : Handler
  -- the handlers that only return NULL
  empty : Handler

abbrev route_if : Bool → Handler → Option Handler → Option Handler
route_if b h rest = if b then some h else rest

-- g_route_table
pub route : Text → Option Handler
route uri = route_if (text_eq uri (codes "/user/login")) Handler.login (
    route_if (text_eq uri (codes "/user/register")) Handler.register (
      route_if (text_eq uri (codes "/user/update_userinfo")) Handler.empty (
        route_if (text_eq uri (codes "/user/get_userinfo")) Handler.empty (
          route_if (text_eq uri (codes "/user/delete_user")) Handler.empty
            (route_if (text_eq uri (codes "/user/change_pwd")) Handler.change_pwd none)))))

-- none is a read through NULL.
unfoldable pub run_handler : Option Handler → UserRequest → Users → Option (UserReply × Users)
unfolding wtsl_core_user_login wtsl_core_user_register wtsl_core_user_change_pwd
run_handler none r s = some (UserReply.no_reply, s)
run_handler (some Handler.login) r s = some (wtsl_core_user_login r s)
run_handler (some Handler.register) r s = some (wtsl_core_user_register r s)
run_handler (some Handler.change_pwd) r s = wtsl_core_user_change_pwd r s
run_handler (some Handler.empty) r s = some (UserReply.no_reply, s)

abbrev pub answered : LoginContext → Option (UserReply × Users) → Option (UserReply × Server)
answered ctx none = none
answered ctx (some (reply, users)) = some (reply, record { users = users; rest_ctx = ctx })

-- The interface copies the context before the handler runs. `url + 7` is behind the end of a shorter
-- URL.
unfoldable pub wtsl_core_post_users_functions :
    Text → UserRequest → Server → Option (UserReply × Server)
unfolding route run_handler
wtsl_core_post_users_functions url r s =
    if ltb (length url) 7
    then none
    else answered s.users.ctx (run_handler (route (drop 7 url)) r s.users)

-- CALL_INTERFACE in the functions for nodes.
unfoldable pub call_interface : Text → Option Node → ℕ → Server → Outcome
unfolding interface_wrapper
call_interface local_mac target func_index s =
    interface_wrapper local_mac target true func_index (some s.rest_ctx.user)

abbrev pub then_post : Option (UserReply × Server) → (Server → Option Server) → Option Server
then_post none f = none
then_post (some (reply, s)) f = f s

-- Requests of users, each with its URL, one after the other.
unfoldable pub post_all : List (Text × UserRequest) → Server → Option Server
unfolding wtsl_core_post_users_functions
post_all [] s = some s
post_all ((url, r) ∷ requests) s =
    then_post (wtsl_core_post_users_functions url r s) (post_all requests)
