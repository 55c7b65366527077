-- ===== src/Http/Finish.antt =====
-- The last call of the handler for a POST request.
use wtsl_app.Base.{
  ℕ, ◌≤◌, Bool, true, false, Option, none, some, List, ◌≡◌, refl, ◌∙◌, ap, if◌then◌else◌, leb, ltb,
  ◌&&◌, ◌||◌, not, length, take, drop, Text,
}
use wtsl_app.Http.{
  RequestData, Request, Handled, Answer, MhdResult, kept, post_data, finish_post, is_open,
}
use wtsl_app.Http.Body.{IsReceiving, not_less}

-- The answer to a POST with this body, and the handler's result: the body is passed on when it has the
-- announced size n, and to the open URLs only without authorization.
unfoldable pub outcome : Request → List ℕ → ℕ → Answer × MhdResult
outcome req body n =
    if ltb 0 n && leb n (length body)
    then (if req.has_auth || is_open (drop 7 req.url)
        then (Answer.post_answer req.url body, MhdResult.mhd_yes)
        else (Answer.nothing, MhdResult.mhd_no))
    else (Answer.nothing, MhdResult.mhd_yes)

-- A run of the handler that ends with this answer and result.
pub record Ends (run : Option Handled) (o : Answer × MhdResult) : Type 0 where
  pub last : Handled
  pub returns : run ≡ some last
  pub answers : last.answer ≡ o.0
  pub results : last.result ≡ o.1

module _ (rd : RequestData) (url : Text) (body b : List ℕ) where
  -- finish_post and outcome, with the tests as parameters.
  abbrev tests : Bool → Bool → Bool → Bool → Option (List ℕ) → Option Handled
  tests done short auth free_url data_ =
      if done
      then (if short
          then none
          else (if not auth && not free_url
              then kept rd Answer.nothing MhdResult.mhd_no
              else post_data url rd data_))
      else kept rd Answer.nothing MhdResult.mhd_yes

  abbrev tested : Bool → Bool → Bool → Answer × MhdResult
  tested done auth free_url =
      if done
      then (if auth || free_url
          then (Answer.post_answer url body, MhdResult.mhd_yes)
          else (Answer.nothing, MhdResult.mhd_no))
      else (Answer.nothing, MhdResult.mhd_yes)

  tests-tested :
      take rd.data_size b ≡ body
      → (done auth free_url : Bool)
      → Ends (tests done false auth free_url (some b)) (tested done auth free_url)
  tests-tested holds false auth free_url = record {
    last = _;
    returns = refl;
    answers = refl;
    results = refl;
  }
  tests-tested holds true false false = record {
    last = _;
    returns = refl;
    answers = refl;
    results = refl;
  }
  tests-tested holds true false true = record {
    last = _;
    returns = refl;
    answers = ap (Answer.post_answer url) holds;
    results = refl;
  }
  tests-tested holds true true false = record {
    last = _;
    returns = refl;
    answers = ap (Answer.post_answer url) holds;
    results = refl;
  }
  tests-tested holds true true true = record {
    last = _;
    returns = refl;
    answers = ap (Answer.post_answer url) holds;
    results = refl;
  }

  tests_lem :
      (done done' short auth free_url : Bool) (data_ : Option (List ℕ))
      → take rd.data_size b ≡ body
      → done ≡ done'
      → short ≡ false
      → data_ ≡ some b
      → Ends (tests done short auth free_url data_) (tested done' auth free_url)
  tests_lem done done' short auth free_url data_ holds e es ed =
      rw (e, es, ed) (tests-tested holds done' auth free_url)

pub finish-outcome :
    (rd : RequestData) (req : Request) (body : List ℕ)
    → IsReceiving rd body
    → 7 ≤ length req.url
    → Ends (finish_post rd req) (outcome req body rd.expected_size)
unfolding finish_post outcome
finish-outcome rd req body k long =
    tests_lem rd req.url body k.buffer rd.is_complete
      (ltb 0 rd.expected_size && leb rd.expected_size (length body)) (ltb (length req.url) 7)
      req.has_auth (is_open (drop 7 req.url)) rd.data_ k.holds
      (k.complete ∙ ap (λ n. ltb 0 rd.expected_size && leb rd.expected_size n) k.size)
      (not_less (length req.url) 7 long) k.is_buffer
