-- ===== src/Rest/Kept.antt =====
-- Requests one after the other, and those that leave the user manager and the context of the interface.
use wtsl_app.Base.{
  Bool, true, false, Option, none, some, List, [], ◌∷◌, ◌≡◌, refl, ap, ◌∙◌, sym, ◌==◌, leb, ltb,
  if◌then◌else◌, length, Text, codes, strncmp_eq,
}
use wtsl_app.Nodes.{Ptr, Run, ◌>>=◌, find_wtsl_node_by_id}
use wtsl_app.Users.Routes.{Server}
use wtsl_app.Rest.{
  Platform, Gateway, Branch, branch, Match, choose_branch, url_token, tokens, call_node_function,
}
use wtsl_app.Rest.Get.{
  GetAnswer, get_branches, qos_branches, acl_branches, get_call, get_chosen, get_all, get_five,
  get_six, get_of_node, get_by_size, get_fits, finish_get, wtsl_core_get_nodes_functions,
  wtcoreapi_parse_http_get_cmd,
}
use wtsl_app.Rest.Post.{
  PostData, PostAnswer, choose_post, post_chosen, post_at, post_fits, finish_post_ret,
  wtsl_core_post_nodes_functions, wtcoreapi_parse_http_post_cmd,
}

pub data Request : Type 0 where
  get : Text → Request
  post : Text → PostData → Request

unfoldable pub serve : Platform → Request → Gateway → Run Gateway
unfolding wtcoreapi_parse_http_get_cmd wtcoreapi_parse_http_post_cmd
serve env (get url) s = wtcoreapi_parse_http_get_cmd env s url >>= λ (ret, s'). Run.value s'
serve env (post url d) s = wtcoreapi_parse_http_post_cmd env s url d >>= λ (ret, s'). Run.value s'

-- Requests one after the other.
unfoldable pub serve_all : Platform → List Request → Gateway → Run Gateway
unfolding serve
serve_all env [] s = Run.value s
serve_all env (r ∷ requests) s = serve env r s >>= serve_all env requests

-- A GET, or a POST whose URL is not one for users.
abbrev pub is_other : Request → Bool
is_other (get url) = true
is_other (post url d) = if post_fits url (codes "user") then false else true

abbrev pub AllOther : List Request → Type 0
AllOther [] = Unit
AllOther (r ∷ requests) = (is_other r ≡ true) × AllOther requests

not_user_if : (b : Bool) → (if b then false else true) ≡ true → b ≡ false
not_user_if true e = cc
not_user_if false e = refl

not_user :
    (url : Text)
    → (if post_fits url (codes "user") then false else true) ≡ true
    → post_fits url (codes "user") ≡ false
not_user url e = not_user_if (post_fits url (codes "user")) e

pub value_inj : {A : Type 0} (a b : A) → Run.value a ≡ Run.value b → a ≡ b
value_inj a b e = cc

pub no_value : {A : Type 0} (a : A) → Run.fault ≡ Run.value a → ⊥
no_value a e = cc

pub bind_value :
    {A B : Type 0} (m : Run A) (f : A → Run B) (b : B)
    → (m >>= f) ≡ Run.value b
    → (a : A) × (m ≡ Run.value a) × (f a ≡ Run.value b)
bind_value (Run.value a) f b e = (a, refl, e)
bind_value Run.fault f b e = cc
bind_value Run.out_of_fuel f b e = cc

-- A run that ends leaves the server.
abbrev Keeps : {A : Type 0} → Server → Run (A × Gateway) → Type 0
Keeps v (Run.value (a, s)) = s.server ≡ v
Keeps v Run.fault = Unit
Keeps v Run.out_of_fuel = Unit

ended-Keeps :
    {A : Type 0} (v : Server) (m : Run (A × Gateway)) (s' : Gateway)
    → Keeps v m
    → (m >>= λ (a, s). Run.value s) ≡ Run.value s'
    → s'.server ≡ v
ended-Keeps v (Run.value (a, s)) s' h e = ap (λ g. g.server) (sym (value_inj s s' e)) ∙ h
ended-Keeps v Run.fault s' h e = cc
ended-Keeps v Run.out_of_fuel s' h e = cc

module _ {A : Type 0} (v : Server) where
  if-Keeps :
      (b : Bool) (x y : Run (A × Gateway)) → Keeps v x → Keeps v y → Keeps v (if b then x else y)
  if-Keeps true x y h k = h
  if-Keeps false x y h k = k

  else-Keeps :
      (b : Bool) (x y : Run (A × Gateway)) → b ≡ false → Keeps v y → Keeps v (if b then x else y)
  else-Keeps true x y e h = cc
  else-Keeps false x y e h = h

  bind-Keeps :
      {B : Type 0} (m : Run B) (f : B → Run (A × Gateway))
      → ((b : B) → Keeps v (f b))
      → Keeps v (m >>= f)
  bind-Keeps (Run.value b) f h = h b
  bind-Keeps Run.fault f h = tt
  bind-Keeps Run.out_of_fuel f h = tt

module _ (env : Platform) (s : Gateway) where
  get_call-Keeps : (p : Ptr) (b : Branch) → Keeps s.server (get_call env s p b)
  get_call-Keeps p b =
      bind-Keeps s.server (call_node_function env s p b.func s.buffer) _ (λ r. refl)

  get_chosen-Keeps :
      (p : Ptr) (otherwise : Option Text) (o : Option Branch)
      → Keeps s.server (get_chosen env s p otherwise o)
  get_chosen-Keeps p otherwise none = refl
  get_chosen-Keeps p otherwise (some b) = get_call-Keeps p b

  get_all-Keeps : (o : Option Ptr) → Keeps s.server (get_all env s o)
  get_all-Keeps none = tt
  get_all-Keeps (some p) = get_call-Keeps p (branch (Match.within 0) "" "get_all_nodes_info" false)

  get_five-Keeps : (func : Text) (o : Option Ptr) → Keeps s.server (get_five env s func o)
  get_five-Keeps func none = refl
  get_five-Keeps func (some p) = get_chosen-Keeps p none (choose_branch get_branches func)

  get_six-Keeps :
      (urls : List Text) (func : Text) (o : Option Ptr) → Keeps s.server (get_six env s urls func o)
  get_six-Keeps urls func none = refl
  get_six-Keeps urls func (some p) =
      let by_way : (branches : List Branch)
          → Keeps s.server (
              url_token urls 5 >>= λ way.
              get_chosen env s p (some s.buffer) (choose_branch branches way)) =
        λ branches.
          bind-Keeps s.server (url_token urls 5) _
            (λ way. get_chosen-Keeps p (some s.buffer) (choose_branch branches way)) in
      if-Keeps s.server (strncmp_eq func (codes "qos") 3) _ _ (by_way qos_branches)
        (if-Keeps s.server (strncmp_eq func (codes "acl") 3) _ _ (by_way acl_branches) refl)

  get_of_node-Keeps :
      (urls : List Text) (f : Text → Option Ptr → GetAnswer)
      → ((func : Text) (o : Option Ptr) → Keeps s.server (f func o))
      → Keeps s.server (get_of_node env s urls f)
  get_of_node-Keeps urls f h = bind-Keeps s.server (url_token urls 3) _ (λ id.
      bind-Keeps s.server (url_token urls 4) _
        (λ func. bind-Keeps s.server (find_wtsl_node_by_id s.nodes (env.atoi id)) _ (h func)))

  get_by_size-Keeps : (urls : List Text) → Keeps s.server (get_by_size env s urls)
  get_by_size-Keeps urls =
      if-Keeps s.server (leb (length urls) 3) _ _
        (bind-Keeps s.server (find_wtsl_node_by_id s.nodes 0) _ get_all-Keeps)
        (if-Keeps s.server (length urls == 5) _ _ (get_of_node-Keeps urls _ get_five-Keeps) (
          if-Keeps s.server (leb 6 (length urls)) _ _
            (get_of_node-Keeps urls _ (get_six-Keeps urls)) refl))

  get_nodes-Keeps : (urls : List Text) → Keeps s.server (wtsl_core_get_nodes_functions env s urls)
  unfolding wtsl_core_get_nodes_functions
  get_nodes-Keeps urls = bind-Keeps s.server (url_token urls 2) _ (λ api.
      if-Keeps s.server (strncmp_eq api (codes "nodes") 5) _ _ (get_by_size-Keeps urls) refl)

  finish_get-Keeps : (a : GetAnswer) → Keeps s.server a → Keeps s.server (finish_get a)
  finish_get-Keeps (Run.value (o, s')) h = h
  finish_get-Keeps Run.fault h = tt
  finish_get-Keeps Run.out_of_fuel h = tt

  get_cmd-Keeps : (url : Text) → Keeps s.server (wtcoreapi_parse_http_get_cmd env s url)
  unfolding wtcoreapi_parse_http_get_cmd
  get_cmd-Keeps url =
      let urls : List Text = tokens [] url in
      if-Keeps s.server (ltb (length urls) 3) _ _ refl (
        bind-Keeps s.server (url_token urls 2) _ (λ api.
          if-Keeps s.server (get_fits url api (codes "nodes")) _ _
            (finish_get-Keeps _ (get_nodes-Keeps urls))
            (if-Keeps s.server (get_fits url api (codes "user")) _ _ refl refl)))

  module _ (d : PostData) where
    post_chosen-Keeps : (p : Ptr) (o : Option Branch) → Keeps s.server (post_chosen env s d p o)
    post_chosen-Keeps p none = refl
    post_chosen-Keeps p (some b) =
        bind-Keeps s.server (call_node_function env s p b.func d.args) _ (λ r. refl)

    post_at-Keeps :
        (urls : List Text) (func : Text) (o : Option Ptr)
        → Keeps s.server (post_at env s d urls func o)
    post_at-Keeps urls func none = refl
    post_at-Keeps urls func (some p) =
        bind-Keeps s.server (choose_post urls func) _ (post_chosen-Keeps p)

    post_nodes-Keeps :
        (urls : List Text) → Keeps s.server (wtsl_core_post_nodes_functions env s d urls)
    unfolding wtsl_core_post_nodes_functions
    post_nodes-Keeps urls = if-Keeps s.server (ltb (length urls) 5) _ _ refl (
        bind-Keeps s.server (url_token urls 2) _ (λ api.
          bind-Keeps s.server (url_token urls 3) _ (λ id.
            bind-Keeps s.server (url_token urls 4) _ (λ func.
              bind-Keeps s.server (find_wtsl_node_by_id s.nodes (env.atoi id)) _
                (post_at-Keeps urls func)))))

    finish_post-Keeps : (a : PostAnswer) → Keeps s.server a → Keeps s.server (finish_post_ret a)
    finish_post-Keeps (Run.value (o, s')) h = h
    finish_post-Keeps Run.fault h = tt
    finish_post-Keeps Run.out_of_fuel h = tt

    post_cmd-Keeps :
        (url : Text)
        → is_other (post url d) ≡ true
        → Keeps s.server (wtcoreapi_parse_http_post_cmd env s url d)
    unfolding wtcoreapi_parse_http_post_cmd
    post_cmd-Keeps url other =
        if-Keeps s.server (post_fits url (codes "nodes")) _ _
          (finish_post-Keeps _ (post_nodes-Keeps (tokens [] url)))
          (else-Keeps s.server (post_fits url (codes "user")) _ _ (not_user url other) refl)

  request-Keeps :
      (r : Request) (s' : Gateway)
      → is_other r ≡ true
      → serve env r s ≡ Run.value s'
      → s'.server ≡ s.server
  unfolding serve
  request-Keeps (get url) s' other e =
      ended-Keeps s.server (wtcoreapi_parse_http_get_cmd env s url) s' (get_cmd-Keeps url) e
  request-Keeps (post url d) s' other e =
      ended-Keeps s.server (wtcoreapi_parse_http_post_cmd env s url d) s'
        (post_cmd-Keeps d url other) e

pub all-Keeps :
    (env : Platform) (requests : List Request) (s s' : Gateway)
    → AllOther requests
    → serve_all env requests s ≡ Run.value s'
    → s'.server ≡ s.server
unfolding serve_all
all-Keeps env [] s s' h e = ap (λ g. g.server) (sym (value_inj s s' e))
all-Keeps env (r ∷ requests) s s' (other, h) e =
    let (s1, first, rest) = bind_value (serve env r s) (serve_all env requests) s' e in
    all-Keeps env requests s1 s' h rest ∙ request-Keeps env s r s1 other first
