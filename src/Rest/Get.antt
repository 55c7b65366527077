-- ===== src/Rest/Get.antt =====
-- wtcoreapi_parse_http_get_cmd and wtsl_core_get_nodes_functions of
-- src/wtsl_core/protocol/http/wtsl_core_http_restful_api.c.
use wtsl_app.Base.{
  Bool, true, false, ◌&&◌, Option, none, some, List, [], ◌∷◌, ◌++◌, ◌==◌, leb, ltb, if◌then◌else◌,
  length, Text, codes, strncmp_eq,
}
use wtsl_app.Nodes.{Ptr, Run, ◌>>=◌, find_wtsl_node_by_id}
use wtsl_app.Rest.{
  Platform, Gateway, ApiRet, Branch, branch, Match, choose_branch, url_token, tokens,
  call_node_function,
}

-- What a function of the table gives, with the state behind it.
abbrev pub GetAnswer : Type 0
GetAnswer = Run (Option Text × Gateway)

-- The branches for five tokens.
unfoldable pub get_branches : List Branch
get_branches =
    branch (Match.within 9) "basicinfo" "get_node_basicinfo" true
    ∷ branch (Match.within 8) "conninfo" "get_node_conninfo" true
    ∷ branch (Match.within 7) "advinfo" "get_node_advinfo" true
    ∷ branch (Match.within 4) "scan" "start_scan" true
    ∷ branch (Match.within 13) "resourcesinfo" "get_hw_resources_info" false
    ∷ branch (Match.within 14) "show_bss_info" "show_bss_info" false
    ∷ branch (Match.within 8) "sle_scan" "do_sle_scan" false
    ∷ branch (Match.within 12) "sle_show_bss" "get_sle_scan_result" false
    ∷ branch (Match.within 12) "sle_conninfo" "get_sle_conninfo" false
    ∷ branch (Match.within 13) "sle_basicinfo" "get_sle_basicinfo" false
    ∷ branch (Match.within 16) "sle_trans_config" "get_sle_trans_config" false
    ∷ []

unfoldable pub qos_branches : List Branch
qos_branches =
    branch (Match.within 6) "status" "qos_get_status" true
    ∷ branch (Match.within 5) "rules" "qos_get_rules" true
    ∷ []

unfoldable pub acl_branches : List Branch
acl_branches =
    branch (Match.within 6) "status" "acl_get_status" true
    ∷ branch (Match.within 5) "rules" "acl_get_rules" true
    ∷ []

-- NULL if the operation returns NULL, else what it returns or the buffer.
abbrev pub given : Bool → Option Text → Text → Option Text
given gives_buffer none buffer = none
given true (some t) buffer = some buffer
given false (some t) buffer = some t

abbrev pub get_call : Platform → Gateway → Ptr → Branch → GetAnswer
get_call env s p b = call_node_function env s p b.func s.buffer >>= λ (ret, buffer).
    Run.value (given b.gives_buffer ret buffer, record s { buffer = buffer })

abbrev pub get_chosen : Platform → Gateway → Ptr → Option Text → Option Branch → GetAnswer
get_chosen env s p otherwise none = Run.value (otherwise, s)
get_chosen env s p otherwise (some b) = get_call env s p b

-- No param: the information about all nodes, by the node with the id 0.
abbrev pub get_all : Platform → Gateway → Option Ptr → GetAnswer
get_all env s none = Run.fault
get_all env s (some p) = get_call env s p (branch (Match.within 0) "" "get_all_nodes_info" false)

abbrev pub get_five : Platform → Gateway → Text → Option Ptr → GetAnswer
get_five env s func none = Run.value (none, s)
get_five env s func (some p) = get_chosen env s p none (choose_branch get_branches func)

-- Of qos and acl, a way that is not known falls through to the end, where the buffer is returned.
abbrev pub get_six : Platform → Gateway → List Text → Text → Option Ptr → GetAnswer
get_six env s urls func none = Run.value (none, s)
get_six env s urls func (some p) =
    let by_way : List Branch → GetAnswer = λ branches.
      url_token urls 5 >>= λ way. get_chosen env s p (some s.buffer) (choose_branch branches way) in
    if strncmp_eq func (codes "qos") 3
    then by_way qos_branches
    else if strncmp_eq func (codes "acl") 3
    then by_way acl_branches
    else Run.value (none, s)

abbrev pub get_of_node :
    Platform → Gateway → List Text → (Text → Option Ptr → GetAnswer) → GetAnswer
get_of_node env s urls f = url_token urls 3 >>= λ id.
    url_token urls 4 >>= λ func. find_wtsl_node_by_id s.nodes (env.atoi id) >>= f func

-- With four tokens no test fits, and the buffer is returned.
abbrev pub get_by_size : Platform → Gateway → List Text → GetAnswer
get_by_size env s urls =
    if leb (length urls) 3
    then find_wtsl_node_by_id s.nodes 0 >>= get_all env s
    else if length urls == 5
    then get_of_node env s urls (get_five env s)
    else if leb 6 (length urls)
    then get_of_node env s urls (get_six env s urls)
    else Run.value (some s.buffer, s)

unfoldable pub wtsl_core_get_nodes_functions : Platform → Gateway → List Text → GetAnswer
unfolding call_node_function find_wtsl_node_by_id get_branches qos_branches acl_branches
wtsl_core_get_nodes_functions env s urls = url_token urls 2 >>= λ api.
    if strncmp_eq api (codes "nodes") 5 then get_by_size env s urls else Run.value (none, s)

-- The status is 0 if there is data.
abbrev pub get_ret : Option Text → ApiRet
get_ret none = record { ok = false; content = none }
get_ret (some t) = record { ok = true; content = some t }

abbrev pub refused_ret : ApiRet
refused_ret = record { ok = false; content = none }

abbrev pub finish_get : GetAnswer → Run (ApiRet × Gateway)
finish_get answer = answer >>= λ (content, s). Run.value (get_ret content, s)

-- The test of an entry of the table: the third token is a prefix of its name, and the URL begins with
-- the address of that name.
abbrev pub get_fits : Text → Text → Text → Bool
get_fits url api name =
    strncmp_eq api name (length api)
    && strncmp_eq url (codes "/api/v1/" ++ name) (length (codes "/api/v1/" ++ name))

-- wtsl_core_get_users_functions only returns NULL.
abbrev pub get_by_table : Platform → Gateway → Text → List Text → Run (ApiRet × Gateway)
get_by_table env s url urls = url_token urls 2 >>= λ api.
    if get_fits url api (codes "nodes")
    then finish_get (wtsl_core_get_nodes_functions env s urls)
    else if get_fits url api (codes "user")
    then finish_get (Run.value (none, s))
    else Run.value (refused_ret, s)

unfoldable pub wtcoreapi_parse_http_get_cmd : Platform → Gateway → Text → Run (ApiRet × Gateway)
unfolding wtsl_core_get_nodes_functions
wtcoreapi_parse_http_get_cmd env s url =
    let urls = tokens [] url in
    if ltb (length urls) 3 then Run.value (refused_ret, s) else get_by_table env s url urls
