-- ===== src/Rest/Outcomes.antt =====
-- How the requests about nodes end.
use wtsl_app.Base.{
  ℕ, zero, suc, ◌<◌, ◌≤◌, Bool, true, false, Option, none, some, List, [], ◌∷◌, ◌==◌, ◌≡◌, refl, ap,
  ◌∙◌, sym, if◌then◌else◌, leb, ltb, length, Text, codes, strncmp_eq, Option-cases, inl, inr, arith,
}
use mathlib.Core.Path.{subst}
use wtsl_app.Permission.{global_perm_map}
use wtsl_app.Nodes.{Ptr, WtslNode, Run, ◌>>=◌, find_wtsl_node_by_id}
use wtsl_app.Nodes.Links.{Cells}
use wtsl_app.Nodes.Search.{first, has_id, find-first}
use wtsl_app.Rest.{
  Platform, Gateway, Branch, branch, Match, choose_branch, url_token, tokens, call_node_function,
}
use wtsl_app.Rest.Get.{
  GetAnswer, get_branches, qos_branches, acl_branches, get_call, get_chosen, get_all, get_five,
  get_six, get_of_node, get_by_size, get_fits, wtsl_core_get_nodes_functions,
  wtcoreapi_parse_http_get_cmd,
}
use wtsl_app.Rest.Answers.{
  Ends, IsServing, is_listed, all_listed, choose_listed, get_listed, qos_listed, acl_listed,
  bind-Ends, call-Ends,
}

pub if-Ends :
    {A : Type 0} (b : Bool) (x y : Run A)
    → (b ≡ true → Ends x)
    → (b ≡ false → Ends y)
    → Ends (if b then x else y)
if-Ends true x y hx hy = hx refl
if-Ends false x y hx hy = hy refl

pub url_token-Ends : (urls : List Text) (i : ℕ) → i < length urls → Ends (url_token urls i)
url_token-Ends [] i h = absurd (omega arith)
url_token-Ends (w ∷ urls) zero h = (w, refl)
url_token-Ends (w ∷ urls) (suc i) h = url_token-Ends urls i (omega arith)

all_nodes_listed : is_listed (codes "get_all_nodes_info") ≡ true
unfolding global_perm_map
all_nodes_listed = refl

five_le : (n : ℕ) → (n == 5) ≡ true → 5 ≤ n
five_le n h = ground arith

six_le : (n : ℕ) → leb 6 n ≡ true → 6 ≤ n
six_le n h = ground arith

three_le : (n : ℕ) → ltb n 3 ≡ false → 3 ≤ n
three_le n h = ground arith

module _ (env : Platform) (s : Gateway) (cells : Cells) (serving : IsServing env s cells) where
  -- What find_wtsl_node_by_id may give.
  abbrev pub Found : Option Ptr → Type 0
  Found none = Unit
  Found (some p) = (test : WtslNode → Bool) × (first test cells ≡ some p)

  find-Found :
      (id : ℕ) → (o : Option Ptr) × (find_wtsl_node_by_id s.nodes id ≡ Run.value o) × Found o
  unfolding find_wtsl_node_by_id
  find-Found id = elim (Option-cases (first (has_id id) cells)) [
    | inl e ↦ (none, find-first (has_id id) s.nodes cells serving.links ∙ ap Run.value e, tt)
    | inr (p, e) ↦ (
      some p,
      find-first (has_id id) s.nodes cells serving.links ∙ ap Run.value e,
      (has_id id, e),
    )
  ]

  pub find-Ends :
      {B : Type 0} (id : ℕ) (f : Option Ptr → Run B)
      → ((o : Option Ptr) → Found o → Ends (f o))
      → Ends (find_wtsl_node_by_id s.nodes id >>= f)
  find-Ends id f h =
      let (o, e, found) = find-Found id in subst (λ v. Ends (v >>= f)) (sym e) (h o found)

  get_call-Ends :
      (p : Ptr) (b : Branch) → Found (some p) → is_listed b.func ≡ true → Ends (get_call env s p b)
  get_call-Ends p b (test, e) h =
      bind-Ends (call_node_function env s p b.func s.buffer) _
        (call-Ends env s cells serving test p b.func s.buffer e h) (λ (ret, buffer). (_, refl))

  get_chosen-Ends :
      (p : Ptr) (otherwise : Option Text) (branches : List Branch) (name : Text)
      → Found (some p)
      → all_listed branches ≡ true
      → Ends (get_chosen env s p otherwise (choose_branch branches name))
  get_chosen-Ends p otherwise branches name found h =
      elim (Option-cases (choose_branch branches name)) [
        | inl e ↦ subst (λ c. Ends (get_chosen env s p otherwise c)) (sym e) (_, refl)
        | inr (b, e) ↦
            subst (λ c. Ends (get_chosen env s p otherwise c)) (sym e)
              (get_call-Ends p b found (choose_listed branches name b h e))
      ]

  get_five-Ends : (func : Text) (o : Option Ptr) → Found o → Ends (get_five env s func o)
  get_five-Ends func none found = (_, refl)
  get_five-Ends func (some p) found = get_chosen-Ends p none get_branches func found get_listed

  get_six-Ends :
      (urls : List Text) (func : Text) (o : Option Ptr)
      → 6 ≤ length urls
      → Found o
      → Ends (get_six env s urls func o)
  get_six-Ends urls func none n found = (_, refl)
  get_six-Ends urls func (some p) n found =
      let by_way : (branches : List Branch)
          → all_listed branches ≡ true
          → Ends (
              url_token urls 5 >>= λ way.
              get_chosen env s p (some s.buffer) (choose_branch branches way)) =
        λ branches h.
          bind-Ends (url_token urls 5) _ (url_token-Ends urls 5 (omega arith))
            (λ way. get_chosen-Ends p (some s.buffer) branches way found h) in
      if-Ends (strncmp_eq func (codes "qos") 3) _ _ (λ is. by_way qos_branches qos_listed)
        (λ isnt.
          if-Ends (strncmp_eq func (codes "acl") 3) _ _ (λ is. by_way acl_branches acl_listed)
            (λ isnt. (_, refl)))

  get_of_node-Ends :
      (urls : List Text) (f : Text → Option Ptr → GetAnswer)
      → 5 ≤ length urls
      → ((func : Text) (o : Option Ptr) → Found o → Ends (f func o))
      → Ends (get_of_node env s urls f)
  get_of_node-Ends urls f n h =
      bind-Ends (url_token urls 3) _ (url_token-Ends urls 3 (omega arith)) (λ id.
        bind-Ends (url_token urls 4) _ (url_token-Ends urls 4 (omega arith))
          (λ func. find-Ends (env.atoi id) (f func) (h func)))

  get_all-Ends : Ends (find_wtsl_node_by_id s.nodes 0 >>= get_all env s)
  unfolding find_wtsl_node_by_id
  get_all-Ends =
      subst (λ v. Ends (v >>= get_all env s))
        (sym (find-first (has_id 0) s.nodes cells serving.links ∙ ap Run.value serving.has_root))
        (get_call-Ends serving.root (branch (Match.within 0) "" "get_all_nodes_info" false)
          (has_id 0, serving.has_root) all_nodes_listed)

  get_by_size-Ends : (urls : List Text) → Ends (get_by_size env s urls)
  get_by_size-Ends urls =
      if-Ends (leb (length urls) 3) _ _ (λ is. get_all-Ends)
        (λ isnt.
          if-Ends (length urls == 5) _ _
            (λ is. get_of_node-Ends urls (get_five env s) (five_le (length urls) is) get_five-Ends)
            (λ isnt'.
              if-Ends (leb 6 (length urls)) _ _
                (λ is.
                  let n = six_le (length urls) is in
                  get_of_node-Ends urls (get_six env s urls) (omega arith)
                    (λ func o found. get_six-Ends urls func o n found))
                (λ isnt''. (_, refl))))

  get_nodes-Ends :
      (urls : List Text) → 3 ≤ length urls → Ends (wtsl_core_get_nodes_functions env s urls)
  unfolding wtsl_core_get_nodes_functions
  get_nodes-Ends urls n =
      bind-Ends (url_token urls 2) _ (url_token-Ends urls 2 (omega arith)) (λ api.
        if-Ends (strncmp_eq api (codes "nodes") 5) _ _ (λ is. get_by_size-Ends urls)
          (λ isnt. (_, refl)))

-- On a list of nodes in order, with a node 0 and with the tables of the program at every node, every
-- GET ends and reads neither through NULL nor behind a table, whatever its URL is.
pub get-Ends :
    (env : Platform) (s : Gateway) (cells : Cells) (url : Text)
    → IsServing env s cells
    → Ends (wtcoreapi_parse_http_get_cmd env s url)
unfolding wtcoreapi_parse_http_get_cmd
get-Ends env s cells url serving =
    let urls = tokens [] url in
    if-Ends (ltb (length urls) 3) _ _ (λ few. (_, refl))
      (λ enough.
        let n = three_le (length urls) enough in
        bind-Ends (url_token urls 2) _ (url_token-Ends urls 2 (omega arith)) (λ api.
          if-Ends (get_fits url api (codes "nodes")) _ _
            (λ is.
              bind-Ends (wtsl_core_get_nodes_functions env s urls) _
                (get_nodes-Ends env s cells serving urls n) (λ (content, s'). (_, refl)))
            (λ isnt.
              if-Ends (get_fits url api (codes "user")) _ _ (λ is. (_, refl))
                (λ isnt'. (_, refl)))))
