-- ===== src/Rest/Faults.antt =====
-- How the POSTs about a node end.
use wtsl_app.Base.{
  ℕ, ◌<◌, ◌≤◌, Bool, true, false, ◌&&◌, Option, none, some, List, [], ◌==◌, ◌≡◌, refl, ap, ◌∙◌, sym,
  if◌then◌else◌, ltb, length, get_or, Text, codes, arith,
}
use mathlib.Core.Path.{subst}
use wtsl_app.Nodes.{Ptr, Run, ◌>>=◌, find_wtsl_node_by_id}
use wtsl_app.Nodes.Links.{Cells}
use wtsl_app.Nodes.Search.{first, has_id, find-first}
use wtsl_app.Rest.{Platform, Gateway, Branch, choose_branch, url_token, tokens, call_node_function}
use wtsl_app.Rest.Post.{
  PostData, PostAnswer, post_branches, choose_post, post_chosen, post_at,
  wtsl_core_post_nodes_functions, post_fits, finish_post_ret, wtcoreapi_parse_http_post_cmd,
}
use wtsl_app.Rest.Answers.{Ends, IsServing, bind-Ends, call-Ends}
use wtsl_app.Rest.Ways.{
  has_ways, misses_way, Listed, choose_post-EndsListed, url_token-get_or, choose_or-fault, both_of,
}
use wtsl_app.Rest.Outcomes.{if-Ends, url_token-Ends, Found, find-Ends}

five_at_least : (n : ℕ) → ltb n 5 ≡ false → 5 ≤ n
five_at_least n h = ground arith

six_at_least : (n : ℕ) (b : Bool) → ((n == 5) && b) ≡ false → ltb n 5 ≡ false → b ≡ true → 5 < n
six_at_least n b h e k = ground arith

five_not_less : (n : ℕ) → n ≡ 5 → ltb n 5 ≡ false
five_not_less n h = ground arith

module _ (env : Platform) (s : Gateway) (cells : Cells) (serving : IsServing env s cells) where
  post_chosen-Ends :
      (d : PostData) (p : Ptr) (o : Option Branch)
      → Found env s cells serving (some p)
      → Listed o
      → Ends (post_chosen env s d p o)
  post_chosen-Ends d p none found h = (_, refl)
  post_chosen-Ends d p (some b) (test, e) h =
      bind-Ends (call_node_function env s p b.func d.args) _
        (call-Ends env s cells serving test p b.func d.args e h) (λ (ret, left). (_, refl))

  post_at-Ends :
      (d : PostData) (urls : List Text) (func : Text) (o : Option Ptr)
      → Found env s cells serving o
      → (has_ways func ≡ true → 5 < length urls)
      → Ends (post_at env s d urls func o)
  post_at-Ends d urls func none found n = (_, refl)
  post_at-Ends d urls func (some p) found n =
      let (o, e, listed) = choose_post-EndsListed urls func n in
      subst (λ v. Ends (v >>= post_chosen env s d p)) (sym e) (post_chosen-Ends d p o found listed)

  pub post_nodes-Ends :
      (d : PostData) (urls : List Text)
      → misses_way urls ≡ false
      → Ends (wtsl_core_post_nodes_functions env s d urls)
  unfolding wtsl_core_post_nodes_functions
  post_nodes-Ends d urls m =
      if-Ends (ltb (length urls) 5) _ _ (λ few. (_, refl))
        (λ enough.
          let n = five_at_least (length urls) enough in
          bind-Ends (url_token urls 2) _ (url_token-Ends urls 2 (omega arith)) (λ api.
            bind-Ends (url_token urls 3) _ (url_token-Ends urls 3 (omega arith)) (λ id.
              subst
                (λ v. Ends (
                  v >>= λ func.
                  find_wtsl_node_by_id s.nodes (env.atoi id) >>= post_at env s d urls func))
                (sym (url_token-get_or urls 4 (omega arith)))
                (find-Ends env s cells serving (env.atoi id) _ (λ o found.
                  post_at-Ends d urls (get_or urls 4 []) o found
                    (six_at_least (length urls) (has_ways (get_or urls 4 [])) m enough))))))

  -- Behind the tokens.
  abbrev about : PostData → List Text → Run Text → Run Text → Run Text → PostAnswer
  about d urls a i f = a >>= λ api. i >>= λ id.
      f >>= λ func. find_wtsl_node_by_id s.nodes (env.atoi id) >>= post_at env s d urls func

  find_lem :
      (id : ℕ) (p : Ptr)
      → first (has_id id) cells ≡ some p
      → find_wtsl_node_by_id s.nodes id ≡ Run.value (some p)
  unfolding find_wtsl_node_by_id
  find_lem id p e = find-first (has_id id) s.nodes cells serving.links ∙ ap Run.value e

  choose_post-fault :
      (urls : List Text) (func : Text)
      → has_ways func ≡ true
      → length urls ≡ 5
      → choose_post urls func ≡ Run.fault
  unfolding choose_post
  choose_post-fault urls func h n =
      choose_or-fault urls func (choose_branch post_branches func) h (omega arith)

  post_nodes-fault :
      (d : PostData) (urls : List Text) (p : Ptr)
      → misses_way urls ≡ true
      → first (has_id (env.atoi (get_or urls 3 []))) cells ≡ some p
      → wtsl_core_post_nodes_functions env s d urls ≡ Run.fault
  unfolding wtsl_core_post_nodes_functions
  post_nodes-fault d urls p m e =
      let (five, h) = both_of (length urls) (has_ways (get_or urls 4 [])) m in
      ap
        (λ b.
          if b
          then Run.value (none, s)
          else about d urls (url_token urls 2) (url_token urls 3) (url_token urls 4))
        (five_not_less (length urls) five)
      ∙ ap (λ t. about d urls t (url_token urls 3) (url_token urls 4))
          (url_token-get_or urls 2 (omega arith))
      ∙ ap (λ t. about d urls (Run.value (get_or urls 2 [])) t (url_token urls 4))
          (url_token-get_or urls 3 (omega arith))
      ∙ ap (about d urls (Run.value (get_or urls 2 [])) (Run.value (get_or urls 3 [])))
          (url_token-get_or urls 4 (omega arith))
      ∙ ap (λ r. r >>= post_at env s d urls (get_or urls 4 []))
          (find_lem (env.atoi (get_or urls 3 [])) p e)
      ∙ ap (λ r. r >>= post_chosen env s d p) (choose_post-fault urls (get_or urls 4 []) h five)

-- On a list of nodes in order, with the tables of the program at every node, a POST below
-- /api/v1/nodes ends, unless its URL has five words and the fifth is one that firmware, qos or acl
-- stands for without being an operation of its own. Then, if the node of the fourth word is known, the
-- sixth word, which is not there, is read through NULL.
pub post-outcome :
    (env : Platform) (s : Gateway) (cells : Cells) (url : Text) (d : PostData)
    → IsServing env s cells
    → post_fits url (codes "nodes") ≡ true
    → (misses_way (tokens [] url) ≡ false → Ends (wtcoreapi_parse_http_post_cmd env s url d))
      × ((p : Ptr)
          → misses_way (tokens [] url) ≡ true
          → first (has_id (env.atoi (get_or (tokens [] url) 3 []))) cells ≡ some p
          → wtcoreapi_parse_http_post_cmd env s url d ≡ Run.fault)
unfolding wtcoreapi_parse_http_post_cmd
post-outcome env s cells url d serving fits =
    let urls = tokens [] url in
    let as_nodes : wtcoreapi_parse_http_post_cmd env s url d
        ≡ finish_post_ret (wtsl_core_post_nodes_functions env s d urls) =
      rw fits refl in
    (
      (λ m. subst Ends (sym as_nodes) (
          bind-Ends (wtsl_core_post_nodes_functions env s d urls) _
            (post_nodes-Ends env s cells serving d urls m) (λ (content, s'). (_, refl)))),
      (λ p m e. as_nodes ∙ ap finish_post_ret (post_nodes-fault env s cells serving d urls p m e)),
    )
