-- ===== src/Rest/Muted.antt =====
-- The requests of a user who is no administrator, on the platform without the operations that need
-- more than READ.
use wtsl_app.Base.{
  Bool, true, false, Option, none, some, List, [], ◌==◌, ◌≡◌, refl, ap, if◌then◌else◌, leb, ltb,
  length, Text, codes, strncmp_eq,
}
use wtsl_app.Nodes.{Ptr, ◌>>=◌, find_wtsl_node_by_id}
use wtsl_app.Rest.{Platform, Gateway, Branch, branch, Match, choose_branch, url_token, tokens}
use wtsl_app.Rest.Get.{
  GetAnswer, get_branches, qos_branches, acl_branches, get_call, get_chosen, get_all, get_five,
  get_six, get_of_node, get_by_size, get_fits, finish_get, wtsl_core_get_nodes_functions,
  wtcoreapi_parse_http_get_cmd,
}
use wtsl_app.Rest.Post.{
  PostData, choose_post, post_chosen, post_at, post_fits, finish_post_ret,
  wtsl_core_post_nodes_functions, wtcoreapi_parse_http_post_cmd,
}
use wtsl_app.Rest.Reader.{mute, IsReader, HasTables, bind-ext, bind-left, call_muted}

if-ext :
    {A : Type 0} (b : Bool) {x x' y y' : A}
    → x ≡ x'
    → y ≡ y'
    → (if b then x else y) ≡ (if b then x' else y')
if-ext true e f = e
if-ext false e f = f

module _ (env : Platform) (s : Gateway) (r : IsReader s.server) (m : HasTables env) where
  get_call_muted : (p : Ptr) (b : Branch) → get_call env s p b ≡ get_call (mute env) s p b
  get_call_muted p b = bind-left _ _ _ (call_muted env s p b.func s.buffer r m)

  get_chosen_muted :
      (p : Ptr) (otherwise : Option Text) (o : Option Branch)
      → get_chosen env s p otherwise o ≡ get_chosen (mute env) s p otherwise o
  get_chosen_muted p otherwise none = refl
  get_chosen_muted p otherwise (some b) = get_call_muted p b

  get_all_muted : (o : Option Ptr) → get_all env s o ≡ get_all (mute env) s o
  get_all_muted none = refl
  get_all_muted (some p) = get_call_muted p (branch (Match.within 0) "" "get_all_nodes_info" false)

  get_five_muted :
      (func : Text) (o : Option Ptr) → get_five env s func o ≡ get_five (mute env) s func o
  get_five_muted func none = refl
  get_five_muted func (some p) = get_chosen_muted p none (choose_branch get_branches func)

  get_six_muted :
      (urls : List Text) (func : Text) (o : Option Ptr)
      → get_six env s urls func o ≡ get_six (mute env) s urls func o
  get_six_muted urls func none = refl
  get_six_muted urls func (some p) =
      let by_way : (branches : List Branch)
          → (url_token urls 5 >>= λ way.
              get_chosen env s p (some s.buffer) (choose_branch branches way))
            ≡ (url_token urls 5 >>= λ way.
                get_chosen (mute env) s p (some s.buffer) (choose_branch branches way)) =
        λ branches.
          bind-ext (url_token urls 5) _ _
            (λ way. get_chosen_muted p (some s.buffer) (choose_branch branches way)) in
      if-ext (strncmp_eq func (codes "qos") 3) (by_way qos_branches)
        (if-ext (strncmp_eq func (codes "acl") 3) (by_way acl_branches) refl)

  get_of_node_muted :
      (urls : List Text) (f g : Text → Option Ptr → GetAnswer)
      → ((func : Text) (o : Option Ptr) → f func o ≡ g func o)
      → get_of_node env s urls f ≡ get_of_node (mute env) s urls g
  get_of_node_muted urls f g h = bind-ext (url_token urls 3) _ _ (λ id.
      bind-ext (url_token urls 4) _ _
        (λ func. bind-ext (find_wtsl_node_by_id s.nodes (env.atoi id)) _ _ (h func)))

  get_by_size_muted : (urls : List Text) → get_by_size env s urls ≡ get_by_size (mute env) s urls
  get_by_size_muted urls =
      if-ext (leb (length urls) 3) (bind-ext (find_wtsl_node_by_id s.nodes 0) _ _ get_all_muted) (
        if-ext (length urls == 5) (get_of_node_muted urls _ _ get_five_muted)
          (if-ext (leb 6 (length urls)) (get_of_node_muted urls _ _ (get_six_muted urls)) refl))

  get_nodes_muted :
      (urls : List Text)
      → wtsl_core_get_nodes_functions env s urls ≡ wtsl_core_get_nodes_functions (mute env) s urls
  unfolding wtsl_core_get_nodes_functions
  get_nodes_muted urls =
      bind-ext (url_token urls 2) _ _
        (λ api. if-ext (strncmp_eq api (codes "nodes") 5) (get_by_size_muted urls) refl)

  post_chosen_muted :
      (d : PostData) (p : Ptr) (o : Option Branch)
      → post_chosen env s d p o ≡ post_chosen (mute env) s d p o
  post_chosen_muted d p none = refl
  post_chosen_muted d p (some b) = bind-left _ _ _ (call_muted env s p b.func d.args r m)

  post_at_muted :
      (d : PostData) (urls : List Text) (func : Text) (o : Option Ptr)
      → post_at env s d urls func o ≡ post_at (mute env) s d urls func o
  post_at_muted d urls func none = refl
  post_at_muted d urls func (some p) = bind-ext (choose_post urls func) _ _ (post_chosen_muted d p)

  post_nodes_muted :
      (d : PostData) (urls : List Text)
      → wtsl_core_post_nodes_functions env s d urls
        ≡ wtsl_core_post_nodes_functions (mute env) s d urls
  unfolding wtsl_core_post_nodes_functions
  post_nodes_muted d urls = if-ext (ltb (length urls) 5) refl (
      bind-ext (url_token urls 2) _ _ (λ api. bind-ext (url_token urls 3) _ _ (λ id.
        bind-ext (url_token urls 4) _ _ (λ func.
          bind-ext (find_wtsl_node_by_id s.nodes (env.atoi id)) _ _ (post_at_muted d urls func)))))

-- As long as the context of nodes is that of a login of a user outside the group 0, every GET and
-- every POST, whatever the URL and the data are, is answered and leaves the state as if the operations
-- that need more than READ did not exist. Every node has the table of the program.
pub reader_muted :
    (env : Platform) (s : Gateway) (url : Text) (d : PostData)
    → IsReader s.server
    → HasTables env
    → (wtcoreapi_parse_http_get_cmd env s url ≡ wtcoreapi_parse_http_get_cmd (mute env) s url)
      × (wtcoreapi_parse_http_post_cmd env s url d
          ≡ wtcoreapi_parse_http_post_cmd (mute env) s url d)
unfolding wtcoreapi_parse_http_get_cmd wtcoreapi_parse_http_post_cmd
reader_muted env s url d r m = (
  if-ext (ltb (length (tokens [] url)) 3) refl (
      bind-ext (url_token (tokens [] url) 2) _ _ (λ api.
        if-ext (get_fits url api (codes "nodes"))
          (ap finish_get (get_nodes_muted env s r m (tokens [] url))) refl)),
  if-ext (post_fits url (codes "nodes"))
      (ap finish_post_ret (post_nodes_muted env s r m d (tokens [] url))) refl,
)
