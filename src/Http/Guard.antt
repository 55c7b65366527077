-- ===== src/Http/Guard.antt =====
-- Who reaches the interface behind the server.
use wtsl_app.Base.{
  ℕ, Bool, true, false, not, Option, none, some, List, [], ◌∷◌, ◌≡◌, refl, ◌⊎◌, inl, inr, drop,
  length, ltb, codes, text_eq, if◌then◌else◌, eq_of_text_eq, ◌&&◌,
}
use mathlib.Core.Path.{subst}
use wtsl_app.Http.{
  RequestData, Request, Handled, Answer, MhdResult, Allocator, request_handler, handle_post,
  finish_post, kept, is_open, post_data, chunk_taken, receive_chunk, started, init_request_data,
}

-- What may be answered to a request: a GET needs authorization, and a POST needs it unless its path is one
-- of the three open ones.
pub IsAllowed : Request → Answer → Type 0
IsAllowed req (Answer.get_answer url) = (req.method ≡ codes "GET") × (req.has_auth ≡ true)
IsAllowed req (Answer.post_answer url body) =
    (req.method ≡ codes "POST") × ((req.has_auth ≡ true) ⊎ (is_open (drop 7 req.url) ≡ true))
IsAllowed req _ = Unit

-- All answers of a call are allowed.
Guarded : Request → Option Handled → Type 0
unfolding IsAllowed
Guarded req none = Unit
Guarded req (some h) = IsAllowed req h.answer

if-Guarded :
    (req : Request) (b : Bool) (x y : Option Handled)
    → ((b ≡ true) → Guarded req x)
    → ((b ≡ false) → Guarded req y)
    → Guarded req (if b then x else y)
if-Guarded req true x y f g = f refl
if-Guarded req false x y f g = g refl

may_pass :
    (auth free_url : Bool) → (not auth && not free_url) ≡ false → (auth ≡ true) ⊎ (free_url ≡ true)
may_pass true free_url e = inl refl
may_pass false true e = inr refl
may_pass false false e = cc

post_data-Guarded :
    (req : Request) (rd : RequestData) (d : Option (List ℕ))
    → req.method ≡ codes "POST"
    → (req.has_auth ≡ true) ⊎ (is_open (drop 7 req.url) ≡ true)
    → Guarded req (post_data req.url rd d)
unfolding Guarded
post_data-Guarded req rd none e ok = tt
post_data-Guarded req rd (some b) e ok = (e, ok)

kept-Guarded :
    (req : Request) (rd : RequestData) (r : MhdResult) → Guarded req (kept rd Answer.nothing r)
unfolding Guarded
kept-Guarded req rd r = tt

none-Guarded : (req : Request) → Guarded req none
unfolding Guarded
none-Guarded req = tt

finish-Guarded :
    (req : Request) (rd : RequestData)
    → req.method ≡ codes "POST"
    → Guarded req (finish_post rd req)
unfolding finish_post
finish-Guarded req rd e =
    let refused : Bool = not req.has_auth && not (is_open (drop 7 req.url)) in
    let passed : Option Handled = post_data req.url rd rd.data_ in
    let no : Option Handled = kept rd Answer.nothing MhdResult.mhd_no in
    let yes : Option Handled = kept rd Answer.nothing MhdResult.mhd_yes in
    if-Guarded req rd.is_complete
      (if ltb (length req.url) 7 then none else (if refused then no else passed)) yes
      (λ done.
        if-Guarded req (ltb (length req.url) 7) none (if refused then no else passed)
          (λ short. none-Guarded req)
          (λ long.
            if-Guarded req refused no passed (λ r. kept-Guarded req rd MhdResult.mhd_no)
              (λ ok.
                post_data-Guarded req rd rd.data_ e
                  (may_pass req.has_auth (is_open (drop 7 req.url)) ok))))
      (λ early. kept-Guarded req rd MhdResult.mhd_yes)

chunk-Guarded : (req : Request) (o : Option RequestData) → Guarded req (chunk_taken o)
unfolding Guarded
chunk-Guarded req none = tt
chunk-Guarded req (some rd) = tt

post-Guarded :
    (al : Allocator) (req : Request) (rd : RequestData) (upload : List ℕ)
    → req.method ≡ codes "POST"
    → Guarded req (handle_post al rd req upload)
unfolding handle_post
post-Guarded al req rd [] e = finish-Guarded req rd e
post-Guarded al req rd (c ∷ upload) e =
    chunk-Guarded req (receive_chunk al rd rd.data_ (c ∷ upload))

started-Guarded : (req : Request) (o : Option (Option RequestData)) → Guarded req (started o)
unfolding Guarded
started-Guarded req none = tt
started-Guarded req (some none) = tt
started-Guarded req (some (some rd)) = tt

handler-Guarded :
    (al : Allocator) (con_cls : Option RequestData) (req : Request) (upload : List ℕ)
    → Guarded req (request_handler al con_cls req upload)
unfolding request_handler Guarded
handler-Guarded al none req upload = started-Guarded req (init_request_data al req.content_length)
handler-Guarded al (some rd) req upload =
    let get : Option Handled =
      if req.has_auth
      then kept rd (Answer.get_answer req.url) MhdResult.queued
      else kept rd Answer.nothing MhdResult.mhd_no in
    let other : Option Handled =
      if text_eq req.method (codes "POST")
      then handle_post al rd req upload
      else kept rd Answer.internal_error MhdResult.mhd_yes in
    if-Guarded req (text_eq req.method (codes "OPTIONS"))
      (kept rd Answer.preflight MhdResult.queued)
      (if text_eq req.method (codes "GET") then get else other) (λ o. tt)
      (λ o.
        if-Guarded req (text_eq req.method (codes "GET")) get other
          (λ g.
            if-Guarded req req.has_auth (kept rd (Answer.get_answer req.url) MhdResult.queued)
              (kept rd Answer.nothing MhdResult.mhd_no)
              (λ a. (eq_of_text_eq req.method (codes "GET") g, a)) (λ a. tt))
          (λ g.
            if-Guarded req (text_eq req.method (codes "POST")) (handle_post al rd req upload)
              (kept rd Answer.internal_error MhdResult.mhd_yes)
              (λ p. post-Guarded al req rd upload (eq_of_text_eq req.method (codes "POST") p))
              (λ p. tt)))

-- In every call of the handler, whatever was received before, only a GET with authorization is
-- answered by the interface, and a POST with authorization or at one of the three open URLs.
pub handler-IsAllowed :
    (al : Allocator) (con_cls : Option RequestData) (req : Request) (upload : List ℕ) (h : Handled)
    → request_handler al con_cls req upload ≡ some h
    → IsAllowed req h.answer
unfolding Guarded
handler-IsAllowed al con_cls req upload h e =
    subst (Guarded req) e (handler-Guarded al con_cls req upload)
