-- ===== src/Rest/Ways.antt =====
-- Which branch the name and the tokens of a POST lead to: of firmware, qos and acl the sixth token is
-- read although the test in front only asks for five.
use wtsl_app.Base.{
  ℕ, ◌<◌, ◌≤◌, Bool, true, false, ◌&&◌, not, Option, none, some, List, [], ◌∷◌, ◌==◌, ◌≡◌, refl, ap,
  sym, if◌then◌else◌, length, get_or, Text, codes, strncmp_eq, zero, suc, Option-cases, inl, inr,
  arith,
}
use mathlib.Core.Path.{subst}
use wtsl_app.Permission.{global_perm_map}
use wtsl_app.Nodes.{Run, ◌>>=◌}
use wtsl_app.Rest.{Branch, choose_branch, url_token}
use wtsl_app.Rest.Post.{
  post_branches, firmware_branches, qos_ways, acl_ways, traffic_branch, ways, choose_traffic,
  or_traffic, choose_way, choose_post_or, choose_post,
}
use wtsl_app.Rest.Answers.{
  is_some, is_listed, all_listed, choose_listed, post_listed, firmware_ways_listed, qos_ways_listed,
  acl_ways_listed,
}
use wtsl_app.Rest.Outcomes.{url_token-Ends}

-- The name has ways, and no operation of its own.
abbrev pub has_ways : Text → Bool
has_ways func = not (is_some (choose_branch post_branches func)) && is_some (ways func)

-- There are five tokens, and the fifth has ways.
abbrev pub misses_way : List Text → Bool
misses_way urls = (length urls == 5) && has_ways (get_or urls 4 [])

-- The run ends with no branch or a listed one.
abbrev pub Listed : Option Branch → Type 0
Listed none = Unit
Listed (some b) = is_listed b.func ≡ true

abbrev pub EndsListed : Run (Option Branch) → Type 0
EndsListed r = (o : Option Branch) × (r ≡ Run.value o) × Listed o

chosen-Listed :
    (branches : List Branch) (s : Text)
    → all_listed branches ≡ true
    → Listed (choose_branch branches s)
chosen-Listed branches s h = elim (Option-cases (choose_branch branches s)) [
  | inl e ↦ subst Listed (sym e) tt
  | inr (b, e) ↦ subst Listed (sym e) (choose_listed branches s b h e)
]

traffic_listed : all_listed (traffic_branch ∷ []) ≡ true
unfolding global_perm_map
traffic_listed = refl

if-EndsListed :
    (b : Bool) (x y : Run (Option Branch))
    → (b ≡ true → EndsListed x)
    → EndsListed y
    → EndsListed (if b then x else y)
if-EndsListed true x y hx hy = hx refl
if-EndsListed false x y hx hy = hy

length_six : (n : ℕ) → (n == 6) ≡ true → 5 < n
length_six n h = ground arith

-- Behind a token that is there.
with_token :
    (urls : List Text) (i : ℕ) (f : Text → Run (Option Branch))
    → i < length urls
    → ((way : Text) → EndsListed (f way))
    → EndsListed (url_token urls i >>= f)
with_token urls i f lt h =
    let (w, e) = url_token-Ends urls i lt in subst (λ v. EndsListed (v >>= f)) (sym e) (h w)

traffic-EndsListed : (urls : List Text) → EndsListed (choose_traffic urls)
traffic-EndsListed urls =
    if-EndsListed (length urls == 6) _ _
      (λ is.
        with_token urls 5 _ (length_six (length urls) is)
          (λ way. (_, refl, chosen-Listed (traffic_branch ∷ []) way traffic_listed)))
      (none, refl, tt)

or_traffic-EndsListed :
    (urls : List Text) (o : Option Branch) → Listed o → EndsListed (or_traffic urls o)
or_traffic-EndsListed urls none h = traffic-EndsListed urls
or_traffic-EndsListed urls (some b) h = (some b, refl, h)

-- All branches of the ways are listed.
abbrev WaysListed : Option (List Branch) → Type 0
WaysListed none = Unit
WaysListed (some branches) = all_listed branches ≡ true

if-WaysListed :
    (b : Bool) (x y : Option (List Branch))
    → WaysListed x
    → WaysListed y
    → WaysListed (if b then x else y)
if-WaysListed true x y hx hy = hx
if-WaysListed false x y hx hy = hy

ways-WaysListed : (func : Text) → WaysListed (ways func)
ways-WaysListed func =
    let acl : Option (List Branch) =
      if strncmp_eq func (codes "acl") 3 then some acl_ways else none in
    let qos : Option (List Branch) =
      if strncmp_eq func (codes "qos") 3 then some qos_ways else acl in
    if-WaysListed (strncmp_eq func (codes "firmware") 8) (some firmware_branches) qos
      firmware_ways_listed
      (if-WaysListed (strncmp_eq func (codes "qos") 3) (some qos_ways) acl qos_ways_listed
        (if-WaysListed (strncmp_eq func (codes "acl") 3) (some acl_ways) none acl_ways_listed tt))

choose_way-EndsListed :
    (urls : List Text) (o : Option (List Branch))
    → WaysListed o
    → (is_some o ≡ true → 5 < length urls)
    → EndsListed (choose_way urls o)
choose_way-EndsListed urls none h n = traffic-EndsListed urls
choose_way-EndsListed urls (some branches) h n =
    with_token urls 5 _ (n refl) (λ way.
      or_traffic-EndsListed urls (choose_branch branches way) (chosen-Listed branches way h))

choose_or-EndsListed :
    (urls : List Text) (func : Text) (o : Option Branch)
    → Listed o
    → (not (is_some o) && is_some (ways func) ≡ true → 5 < length urls)
    → EndsListed (choose_post_or urls func o)
choose_or-EndsListed urls func (some b) h n = (some b, refl, h)
choose_or-EndsListed urls func none h n =
    choose_way-EndsListed urls (ways func) (ways-WaysListed func) n

pub choose_post-EndsListed :
    (urls : List Text) (func : Text)
    → (has_ways func ≡ true → 5 < length urls)
    → EndsListed (choose_post urls func)
unfolding choose_post
choose_post-EndsListed urls func n =
    choose_or-EndsListed urls func (choose_branch post_branches func)
      (chosen-Listed post_branches func post_listed) n

pub url_token-get_or :
    (urls : List Text) (i : ℕ) → i < length urls → url_token urls i ≡ Run.value (get_or urls i [])
url_token-get_or [] i h = absurd (omega arith)
url_token-get_or (w ∷ urls) zero h = refl
url_token-get_or (w ∷ urls) (suc i) h = url_token-get_or urls i (omega arith)

pub url_token-fault : (urls : List Text) (i : ℕ) → length urls ≤ i → url_token urls i ≡ Run.fault
url_token-fault [] i h = refl
url_token-fault (w ∷ urls) zero h = absurd (omega arith)
url_token-fault (w ∷ urls) (suc i) h = url_token-fault urls i (omega arith)

pub choose_way-fault :
    (urls : List Text) (o : Option (List Branch))
    → is_some o ≡ true
    → length urls ≤ 5
    → choose_way urls o ≡ Run.fault
choose_way-fault urls none h n = cc
choose_way-fault urls (some branches) h n =
    ap (λ v. v >>= λ way. or_traffic urls (choose_branch branches way)) (url_token-fault urls 5 n)

pub choose_or-fault :
    (urls : List Text) (func : Text) (o : Option Branch)
    → (not (is_some o) && is_some (ways func)) ≡ true
    → length urls ≤ 5
    → choose_post_or urls func o ≡ Run.fault
choose_or-fault urls func none h n = choose_way-fault urls (ways func) h n
choose_or-fault urls func (some b) h n = cc

pub both_of : (n : ℕ) (b : Bool) → ((n == 5) && b) ≡ true → (n ≡ 5) × (b ≡ true)
both_of n b h = ground arith
