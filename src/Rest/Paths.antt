-- ===== src/Rest/Paths.antt =====
-- GETs of nodes by the words of their URLs, and the buffer that they share.
use wtsl_app.Base.{
  ℕ, suc, Bool, true, false, not, ◌&&◌, ◌==◌, arith, Option, none, some, List, [], ◌∷◌, ◌≡◌, refl,
  ◌≢◌, ap, ◌∙◌, sym, if◌then◌else◌, ltb, length, Text, codes,
}
use mathlib.Core.Path.{subst}
use wtsl_app.Nodes.{Ptr, Run, ◌>>=◌, find_wtsl_node_by_id}
use wtsl_app.Users.{LoginContext}
use wtsl_app.Rest.{Platform, Gateway, ApiRet, Branch, choose_branch, call_node_function}
use wtsl_app.Rest.Get.{
  GetAnswer, get_branches, given, get_call, get_chosen, get_five, get_by_size, get_by_table,
  finish_get, refused_ret, wtsl_core_get_nodes_functions, wtcoreapi_parse_http_get_cmd,
}
use wtsl_app.Rest.Tokens.{join, AllWords, IsWord, NoSlash, tokens-join}

-- /api/v1/nodes and the words behind it
abbrev pub nodes_path : List Text → List Text
nodes_path words = codes "api" ∷ codes "v1" ∷ codes "nodes" ∷ words

abbrev no_slash : Text → Bool
no_slash [] = true
no_slash (c ∷ w) = not (c == 47) && no_slash w

head_lem : (c : ℕ) (b : Bool) → (not (c == 47) && b) ≡ true → (c ≢ 47) × (b ≡ true)
head_lem c b h = ground arith

no_slash_lem : (w : Text) → no_slash w ≡ true → NoSlash w
no_slash_lem [] h = tt
no_slash_lem (c ∷ w) h = let (ne, rest) = head_lem c (no_slash w) h in (ne, no_slash_lem w rest)

abbrev is_word : Text → Bool
is_word [] = false
is_word (c ∷ w) = no_slash (c ∷ w)

pub word : (w : Text) → is_word w ≡ true → IsWord w
word [] h = cc
word (c ∷ w) h = ((λ e. cc), no_slash_lem (c ∷ w) h)

nodes_words : (words : List Text) → AllWords words → AllWords (nodes_path words)
nodes_words words h =
    (word (codes "api") refl, (word (codes "v1") refl, (word (codes "nodes") refl, h)))

three_at_least : (n : ℕ) → ltb (suc (suc (suc n))) 3 ≡ false
three_at_least n = ground arith

-- What a GET with these tokens does.
abbrev get_tokens : Platform → Gateway → Text → List Text → Run (ApiRet × Gateway)
get_tokens env s url urls =
    if ltb (length urls) 3 then Run.value (refused_ret, s) else get_by_table env s url urls

by_nodes :
    (env : Platform) (s : Gateway) (words : List Text)
    → get_tokens env s (join (nodes_path words)) (nodes_path words)
      ≡ finish_get (get_by_size env s (nodes_path words))
unfolding wtsl_core_get_nodes_functions
by_nodes env s words = rw (three_at_least (length words)) refl

-- A GET of a path below /api/v1/nodes is answered by the words of the path.
pub get-path :
    (env : Platform) (s : Gateway) (words : List Text)
    → AllWords words
    → wtcoreapi_parse_http_get_cmd env s (join (nodes_path words))
      ≡ finish_get (get_by_size env s (nodes_path words))
unfolding wtcoreapi_parse_http_get_cmd
get-path env s words h =
    ap (get_tokens env s (join (nodes_path words)))
      (tokens-join (nodes_path words) (nodes_words words h))
    ∙ by_nodes env s words

-- The server with another context for nodes.
abbrev pub as_user : Gateway → LoginContext → Gateway
as_user s ctx = record s { server = record s.server { rest_ctx = ctx } }

abbrev pub given_ret : Text → ApiRet
given_ret t = record { ok = true; content = some t }

-- A GET with one word behind nodes gives the buffer, and asks nobody.
get_short :
    (env : Platform) (s : Gateway) (w : Text)
    → finish_get (get_by_size env s (nodes_path (w ∷ []))) ≡ Run.value (given_ret s.buffer, s)
get_short env s w = refl

get_long :
    (env : Platform) (s : Gateway) (id func : Text)
    → get_by_size env s (nodes_path (id ∷ func ∷ []))
      ≡ (find_wtsl_node_by_id s.nodes (env.atoi id) >>= get_five env s func)
get_long env s id func = refl

-- If there is an answer with data, the buffer holds them.
InBuffer : Option Text → Gateway → Type 0
InBuffer none s = Unit
InBuffer (some t) s = s.buffer ≡ t

AnswerInBuffer : Run (Option Text × Gateway) → Type 0
AnswerInBuffer (Run.value (o, s)) = InBuffer o s
AnswerInBuffer Run.fault = Unit
AnswerInBuffer Run.out_of_fuel = Unit

RetInBuffer : Run (ApiRet × Gateway) → Type 0
RetInBuffer (Run.value (ret, s)) = InBuffer ret.content s
RetInBuffer Run.fault = Unit
RetInBuffer Run.out_of_fuel = Unit

finish-InBuffer : (a : GetAnswer) → AnswerInBuffer a → RetInBuffer (finish_get a)
unfolding AnswerInBuffer RetInBuffer InBuffer
finish-InBuffer (Run.value (none, s)) h = h
finish-InBuffer (Run.value (some t, s)) h = h
finish-InBuffer Run.fault h = h
finish-InBuffer Run.out_of_fuel h = h

given-InBuffer :
    (s : Gateway) (r : Run (Option Text × Text))
    → AnswerInBuffer
        (r >>= λ (ret, buffer). Run.value (given true ret buffer, record s { buffer = buffer }))
unfolding AnswerInBuffer InBuffer
given-InBuffer s (Run.value (none, buffer)) = tt
given-InBuffer s (Run.value (some t, buffer)) = refl
given-InBuffer s Run.fault = tt
given-InBuffer s Run.out_of_fuel = tt

get_call-InBuffer :
    (env : Platform) (s : Gateway) (p : Ptr) (b : Branch)
    → b.gives_buffer ≡ true
    → AnswerInBuffer (get_call env s p b)
get_call-InBuffer env s p b g =
    subst
      (λ v. AnswerInBuffer (
        call_node_function env s p b.func s.buffer >>= λ (ret, buffer).
        Run.value (given v ret buffer, record s { buffer = buffer })))
      (sym g) (given-InBuffer s (call_node_function env s p b.func s.buffer))

get_five-InBuffer :
    (env : Platform) (s : Gateway) (func : Text) (b : Branch) (o : Option Ptr)
    → choose_branch get_branches func ≡ some b
    → b.gives_buffer ≡ true
    → AnswerInBuffer (get_five env s func o)
unfolding AnswerInBuffer InBuffer
get_five-InBuffer env s func b none e g = tt
get_five-InBuffer env s func b (some p) e g =
    subst (λ c. AnswerInBuffer (get_chosen env s p none c)) (sym e) (get_call-InBuffer env s p b g)

found-InBuffer :
    (r : Run (Option Ptr)) (f : Option Ptr → GetAnswer)
    → ((o : Option Ptr) → AnswerInBuffer (f o))
    → AnswerInBuffer (r >>= f)
unfolding AnswerInBuffer
found-InBuffer (Run.value o) f h = h o
found-InBuffer Run.fault f h = tt
found-InBuffer Run.out_of_fuel f h = tt

path-InBuffer :
    (env : Platform) (s : Gateway) (id func : Text) (b : Branch)
    → AllWords (id ∷ func ∷ [])
    → choose_branch get_branches func ≡ some b
    → b.gives_buffer ≡ true
    → RetInBuffer (wtcoreapi_parse_http_get_cmd env s (join (nodes_path (id ∷ func ∷ []))))
path-InBuffer env s id func b h e g = subst RetInBuffer (sym (get-path env s (id ∷ func ∷ []) h)) (
    finish-InBuffer (get_by_size env s (nodes_path (id ∷ func ∷ []))) (
      subst AnswerInBuffer (sym (get_long env s id func)) (
        found-InBuffer (find_wtsl_node_by_id s.nodes (env.atoi id)) (get_five env s func)
          (λ o. get_five-InBuffer env s func b o e g))))

buffer_of :
    (r : Run (ApiRet × Gateway)) (t : Text) (s : Gateway)
    → RetInBuffer r
    → r ≡ Run.value (given_ret t, s)
    → s.buffer ≡ t
unfolding RetInBuffer InBuffer
buffer_of r t s h e = subst RetInBuffer e h

-- What a GET of a node gave through the buffer, the next GET with only one word behind
-- /api/v1/nodes gives again, with status 0: whatever the word is, and whatever the context for nodes
-- has become, no login at all included.
pub get_given_again :
    (env : Platform) (s s' : Gateway) (id func w t : Text) (b : Branch) (ctx : LoginContext)
    → AllWords (id ∷ func ∷ [])
    → AllWords (w ∷ [])
    → choose_branch get_branches func ≡ some b
    → b.gives_buffer ≡ true
    → wtcoreapi_parse_http_get_cmd env s (join (nodes_path (id ∷ func ∷ [])))
      ≡ Run.value (given_ret t, s')
    → wtcoreapi_parse_http_get_cmd env (as_user s' ctx) (join (nodes_path (w ∷ [])))
      ≡ Run.value (given_ret t, as_user s' ctx)
get_given_again env s s' id func w t b ctx h k e g run =
    get-path env (as_user s' ctx) (w ∷ []) k
    ∙ get_short env (as_user s' ctx) w
    ∙ ap (λ u. Run.value (given_ret u, as_user s' ctx))
        (buffer_of _ t s' (path-InBuffer env s id func b h e g) run)
