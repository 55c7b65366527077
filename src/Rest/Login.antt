-- ===== src/Rest/Login.antt =====
-- What requests do to the two contexts: the one of the user manager and the copy of it under which the
-- operations of nodes are called.
use wtsl_app.Base.{
  Bool, true, false, Option, none, some, List, ◌∷◌, ◌≡◌, ap, ◌∙◌, sym, ltb, length, Text, codes,
  drop, Bool-cases, inl, inr,
}
use wtsl_app.Nodes.{Run, ◌>>=◌}
use wtsl_app.Users.{User, Users, UserReply, find_user}
use wtsl_app.Users.Routes.{Server, route, run_handler, wtsl_core_post_users_functions, answered}
use wtsl_app.Users.Requests.{login_url, login_request, context_for, logged_server, login_done}
use wtsl_app.Rest.{Platform, Gateway}
use wtsl_app.Rest.Post.{
  PostData, post_fits, post_user, finish_post_ret, wtcoreapi_parse_http_post_cmd,
}
use wtsl_app.Rest.Kept.{
  Request, post, serve, serve_all, AllOther, value_inj, no_value, bind_value, all-Keeps,
}

-- The end of a POST for users.
handled :
    (env : Platform) (s s' : Gateway) (o : Option (UserReply × Users))
    → (finish_post_ret (post_user env s (answered s.server.users.ctx o)) >>= λ (ret, g).
        Run.value g)
      ≡ Run.value s'
    → s'.server.rest_ctx ≡ s.server.users.ctx
handled env s s' none e = cc
handled env s s' (some (reply, users)) e = ap (λ g. g.server.rest_ctx) (sym (value_inj _ s' e))

login_server :
    (env : Platform) (s s' : Gateway) (d : PostData) (o : UserReply × Server)
    → wtsl_core_post_users_functions login_url d.user s.server ≡ some o
    → serve env (post login_url d) s ≡ Run.value s'
    → s'.server ≡ o.1
unfolding serve wtcoreapi_parse_http_post_cmd
login_server env s s' d (reply, server) done e =
    let e' : (finish_post_ret (post_user env s (some (reply, server))) >>= λ (ret, g). Run.value g)
        ≡ Run.value s' =
      ap (λ q. finish_post_ret (post_user env s q) >>= λ (ret, g). Run.value g) (sym done) ∙ e in
    ap (λ g. g.server) (sym (value_inj _ s' e'))

-- Where a POST for users ends, the interface has the context that the user manager had in front of it.
post_user-behind :
    (env : Platform) (s s' : Gateway) (url : Text) (d : PostData)
    → post_fits url (codes "nodes") ≡ false
    → post_fits url (codes "user") ≡ true
    → serve env (post url d) s ≡ Run.value s'
    → s'.server.rest_ctx ≡ s.server.users.ctx
unfolding serve wtcoreapi_parse_http_post_cmd wtsl_core_post_users_functions
post_user-behind env s s' url d nodes user e = elim (Bool-cases (ltb (length url) 7)) [
  | inl short ↦ absurd (no_value s' (rw (nodes, user, short) at e))
  | inr long ↦
      handled env s s' (run_handler (route (drop 7 url)) d.user s.server.users)
        (rw (nodes, user, long) at e)
]

-- A login with the password of a row sets the context of the user manager to that row. But the
-- operations of nodes are then called with the context that the user manager had before the login,
-- over any GETs and POSTs that are not for users and end. Only the next POST for users that ends
-- gives them the context of the login.
pub login-behind :
    (env : Platform) (s s1 s2 : Gateway) (d d' : PostData) (requests : List Request)
    (name token url : Text) (u : User) (takes : Bool)
    → find_user s.server.users.db.rows name ≡ some u
    → d.user ≡ login_request name u.password token takes
    → AllOther requests
    → serve_all env (post login_url d ∷ requests) s ≡ Run.value s1
    → post_fits url (codes "nodes") ≡ false
    → post_fits url (codes "user") ≡ true
    → serve env (post url d') s1 ≡ Run.value s2
    → (s1.server.users.ctx ≡ context_for u token)
      × (s1.server.rest_ctx ≡ s.server.users.ctx)
      × (s2.server.rest_ctx ≡ context_for u token)
unfolding serve_all serve
login-behind env s s1 s2 d d' requests name token url u takes found is other run nodes user next =
    let (s0, first, rest) =
      bind_value (serve env (post login_url d) s) (serve_all env requests) s1 run in
    let done : s0.server ≡ logged_server s.server u name takes token =
      login_server env s s0 d _ (login_done s.server d.user name token u takes found is) first in
    let left : s1.server ≡ logged_server s.server u name takes token =
      all-Keeps env requests s0 s1 other rest ∙ done in
    let now : s1.server.users.ctx ≡ context_for u token = ap (λ v. v.users.ctx) left in
    (now, ap (λ v. v.rest_ctx) left, post_user-behind env s1 s2 url d' nodes user next ∙ now)
