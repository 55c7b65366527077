-- ===== src/Rest/Post.antt =====
-- wtcoreapi_parse_http_post_cmd and wtsl_core_post_nodes_functions of
-- src/wtsl_core/protocol/http/wtsl_core_http_restful_api.c.
use wtsl_app.Base.{
  Bool, false, not, Option, none, some, List, [], ◌∷◌, ◌++◌, ◌==◌, ltb, if◌then◌else◌, length, Text,
  codes, strncmp_eq, contains,
}
use wtsl_app.Nodes.{Ptr, Run, ◌>>=◌, find_wtsl_node_by_id}
use wtsl_app.Users.{UserReply, UserRequest}
use wtsl_app.Users.Routes.{Server, wtsl_core_post_users_functions}
use wtsl_app.Rest.{
  Platform, Gateway, ApiRet, Branch, branch, Match, choose_branch, url_token, tokens,
  call_node_function,
}

-- The data of the request, and what the user manager reads of it.
pub record PostData : Type 0 where
  pub args : Text
  pub user : UserRequest

abbrev pub PostAnswer : Type 0
PostAnswer = Run (Option Text × Gateway)

-- The branches of which each is one operation, in their order.
unfoldable pub post_branches : List Branch
post_branches =
    branch Match.whole "basicinfo" "set_node_basicinfo" false
    ∷ branch Match.whole "advinfo" "set_node_advinfo" false
    ∷ branch Match.whole "connect" "do_connect" false
    ∷ branch Match.whole "autojoinNetwork" "do_autojoinNetwork" false
    ∷ branch Match.whole "timesync" "do_time_sync" false
    ∷ branch Match.whole "reboot" "do_reboot" false
    ∷ branch Match.whole "disconnect" "do_disconnect" false
    ∷ branch Match.whole "restore" "do_restore" false
    ∷ branch Match.whole "aifh" "do_aifh" false
    ∷ branch Match.whole "chanswitch" "do_chswitch" false
    ∷ branch Match.whole "secalg" "get_secalg" false
    ∷ branch Match.whole "adaptivemcs" "set_adaptivemcs" false
    ∷ branch Match.whole "clearschmcs" "do_clearschmcs" false
    ∷ branch Match.whole "mcsboundinfo" "get_mcsboundinfo" false
    ∷ branch Match.whole "mcsbound" "set_mcsbound" false
    ∷ branch (Match.within 14) "adaptivemcsinfo" "get_adaptivemcsinfo" false
    ∷ branch (Match.within 9) "traceinfo" "get_traceinfo" false
    ∷ branch (Match.within 15) "throughput_test" "do_throughput_test" false
    ∷ branch (Match.within 15) "shortrange_test" "do_shortrange_test" false
    ∷ branch (Match.within 16) "remoterange_test" "do_remoterange_test" false
    ∷ branch (Match.within 11) "lowpow_test" "do_lowpow_test" false
    ∷ branch (Match.within 15) "lowlatency_test" "do_lowlatency_test" false
    ∷ branch (Match.within 11) "sle_connect" "do_sle_connect" false
    ∷ branch (Match.within 13) "sle_basicinfo" "set_sle_basicinfo" false
    ∷ branch (Match.within 13) "sle_announce_id" "set_sle_announce_id" false
    ∷ branch (Match.within 15) "config_vap0_mac" "config_vap0_mac" false
    ∷ branch (Match.within 16) "sle_trans_config" "set_sle_trans_config" false
    ∷ []

unfoldable pub firmware_branches : List Branch
firmware_branches =
    branch (Match.within 6) "upload" "do_upload" false
    ∷ branch (Match.within 7) "upgrade" "do_upgrade" false
    ∷ []

unfoldable pub qos_ways : List Branch
qos_ways =
    branch (Match.within 6) "switch" "qos_switch" false
    ∷ branch (Match.within 5) "rules" "qos_set_rules" false
    ∷ []

unfoldable pub acl_ways : List Branch
acl_ways =
    branch (Match.within 6) "switch" "acl_switch" false
    ∷ branch (Match.within 5) "rules" "acl_set_rules" false
    ∷ []

abbrev pub traffic_branch : Branch
traffic_branch = branch (Match.within 7) "traffic" "get_node_traffic" false

-- The branches for the way in the sixth token, which is read for these names.
abbrev pub ways : Text → Option (List Branch)
ways func =
    if strncmp_eq func (codes "firmware") 8
    then some firmware_branches
    else if strncmp_eq func (codes "qos") 3
    then some qos_ways
    else if strncmp_eq func (codes "acl") 3
    then some acl_ways
    else none

-- Behind the branches: with six tokens the last one may be traffic.
abbrev pub choose_traffic : List Text → Run (Option Branch)
choose_traffic urls =
    let last = url_token urls 5 >>= λ way. Run.value (choose_branch (traffic_branch ∷ []) way) in
    if length urls == 6 then last else Run.value none

abbrev pub or_traffic : List Text → Option Branch → Run (Option Branch)
or_traffic urls (some b) = Run.value (some b)
or_traffic urls none = choose_traffic urls

-- The way is read whether or not there is a sixth token.
abbrev pub choose_way : List Text → Option (List Branch) → Run (Option Branch)
choose_way urls none = choose_traffic urls
choose_way urls (some branches) =
    url_token urls 5 >>= λ way. or_traffic urls (choose_branch branches way)

abbrev pub choose_post_or : List Text → Text → Option Branch → Run (Option Branch)
choose_post_or urls func (some b) = Run.value (some b)
choose_post_or urls func none = choose_way urls (ways func)

-- The branch that a name and the tokens lead to.
unfoldable pub choose_post : List Text → Text → Run (Option Branch)
unfolding post_branches firmware_branches qos_ways acl_ways
choose_post urls func = choose_post_or urls func (choose_branch post_branches func)

abbrev pub post_chosen : Platform → Gateway → PostData → Ptr → Option Branch → PostAnswer
post_chosen env s r p none = Run.value (none, s)
post_chosen env s r p (some b) =
    call_node_function env s p b.func r.args >>= λ (ret, left). Run.value (ret, s)

abbrev pub post_at : Platform → Gateway → PostData → List Text → Text → Option Ptr → PostAnswer
post_at env s r urls func none = Run.value (none, s)
post_at env s r urls func (some p) = choose_post urls func >>= post_chosen env s r p

unfoldable pub wtsl_core_post_nodes_functions :
    Platform → Gateway → PostData → List Text → PostAnswer
unfolding call_node_function find_wtsl_node_by_id choose_post
wtsl_core_post_nodes_functions env s r urls =
    let found : PostAnswer = url_token urls 2 >>= λ api. url_token urls 3 >>= λ id.
    url_token urls 4 >>= λ func.
    find_wtsl_node_by_id s.nodes (env.atoi id) >>= post_at env s r urls func in
    if ltb (length urls) 5 then Run.value (none, s) else found

-- The status is 0 if there is data without "errmsg".
abbrev pub post_ret : Option Text → ApiRet
post_ret none = record { ok = false; content = none }
post_ret (some t) = record { ok = not (contains (codes "errmsg") t); content = some t }

abbrev pub post_fits : Text → Text → Bool
post_fits url name = strncmp_eq url (codes "/api/v1/" ++ name) (length (codes "/api/v1/" ++ name))

abbrev pub finish_post_ret : PostAnswer → Run (ApiRet × Gateway)
finish_post_ret answer = answer >>= λ (content, s). Run.value (post_ret content, s)

abbrev pub post_user : Platform → Gateway → Option (UserReply × Server) → PostAnswer
post_user env s none = Run.fault
post_user env s (some (reply, server)) = Run.value (env.print reply, record s { server = server })

unfoldable pub wtcoreapi_parse_http_post_cmd :
    Platform → Gateway → Text → PostData → Run (ApiRet × Gateway)
unfolding wtsl_core_post_nodes_functions wtsl_core_post_users_functions
wtcoreapi_parse_http_post_cmd env s url r =
    let urls = tokens [] url in
    let refused_ret : ApiRet = record { ok = false; content = none } in
    if post_fits url (codes "nodes")
    then finish_post_ret (wtsl_core_post_nodes_functions env s r urls)
    else if post_fits url (codes "user")
    then finish_post_ret (post_user env s (wtsl_core_post_users_functions url r.user s.server))
    else Run.value (refused_ret, s)
