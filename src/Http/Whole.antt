-- ===== src/Http/Whole.antt =====
-- What becomes of a POST request, with and without an announced size.
use wtsl_app.Base.{
  ℕ, ◌+◌, ◌≤◌, ◌<◌, some, List, ◌∷◌, ◌++◌, ◌≡◌, refl, ◌∙◌, ap, arith, if◌then◌else◌, ◌||◌, length,
  drop, inl, inr, lt→ltb, le→leb,
}
use wtsl_app.Http.{
  RequestData, Request, Answer, MhdResult, Allocator, request_handler, conversation, is_open,
  expected_of, capacity_of, kept,
}
use wtsl_app.Http.Body.{IsReceiving}
use wtsl_app.Http.Chunks.{IsAllocator, CanGrow}
use wtsl_app.Http.Conversation.{
  post, join, HasMemory, Ends-equal, HasRoom, conversation-Ends, taken, chunk_call,
}
use wtsl_app.Http.Finish.{Ends, outcome}

-- A chunk of a POST body is taken without an access out of bounds, if malloc can give a larger buffer:
-- then the buffer holds the chunks so far one behind the other, with a terminator behind them, and
-- has room for both. The body and its terminator must have a size that size_t can hold.
pub chunk-IsReceiving :
    (al : Allocator) (rd : RequestData) (req : Request) (body : List ℕ) (c : ℕ) (upload : List ℕ)
    → IsAllocator al
    → CanGrow al
    → req.method ≡ post
    → IsReceiving rd body
    → rd.buffer_capacity < 18446744073709551616
    → length body + length (c ∷ upload) + 1 < 18446744073709551616
    → (rd' : RequestData) × (request_handler al (some rd) req (c ∷ upload)
        ≡ kept rd' Answer.nothing MhdResult.mhd_yes)
      × IsReceiving rd' (body ++ c ∷ upload)
unfolding HasRoom
chunk-IsReceiving al rd req body c upload ok grow e k cap small =
    let (rd', t) =
      taken al rd body (c ∷ upload) (length body + length (c ∷ upload)) ok small (omega arith)
        (record { receiving = k; room = inr grow; addressable = cap }) in
    (rd', chunk_call al rd rd' req body c upload e t, t.receiving)

-- The answer to a whole body of a request.
abbrev pub passed : Request → List ℕ → Answer × MhdResult
passed req body =
    if req.has_auth || is_open (drop 7 req.url)
    then (Answer.post_answer req.url body, MhdResult.mhd_yes)
    else (Answer.nothing, MhdResult.mhd_no)

announced :
    (req : Request) (body : List ℕ) (n : ℕ)
    → 0 < n
    → length body ≡ n
    → outcome req body n ≡ passed req body
unfolding outcome
announced req body n pos e = rw (lt→ltb 0 n pos, le→leb n (length body) (omega (arith, e))) refl

capacity_enough : (n : ℕ) → 0 < n → n + 1 < 18446744073709551616 → n + 1 ≤ capacity_of n
capacity_enough n pos lt = ground arith

-- A POST whose body has the announced size, which is not 0, ends without an access out of bounds, and
-- without the need of a larger buffer: with authorization or at one of the three open URLs exactly the
-- bytes of the chunks, in their order, are passed on; otherwise the connection is refused. The URL has
-- at least the seven characters that are skipped; the structure of the request and its first buffer
-- can be allocated, and size_t can hold the announced size and one more.
pub announced_body-passed :
    (al : Allocator) (req : Request) (chunks : List (ℕ × List ℕ)) (n : ℕ)
    → HasMemory al req
    → req.method ≡ post
    → 7 ≤ length req.url
    → req.content_length ≡ some n
    → 0 < n
    → length (join chunks) ≡ n
    → Ends (conversation al req chunks) (passed req (join chunks))
announced_body-passed al req chunks n mem e long size pos whole =
    let same : expected_of req.content_length ≡ n = ap expected_of size in
    let small : n + 1 < 18446744073709551616 = omega (arith, mem.addressable, same) in
    Ends-equal refl
      (conversation-Ends al req chunks n mem e long small (omega arith)
        (inl (omega (arith, ap capacity_of same, capacity_enough n pos small))))
      (ap (outcome req (join chunks)) same ∙ announced req (join chunks) n pos whole)

never : (req : Request) (body : List ℕ) → outcome req body 0 ≡ (Answer.nothing, MhdResult.mhd_yes)
unfolding outcome
never req body = refl

-- A POST without Content-Length, or with the size 0, is never answered, whatever its body.
pub unannounced-nothing :
    (al : Allocator) (req : Request) (chunks : List (ℕ × List ℕ))
    → HasMemory al req
    → CanGrow al
    → req.method ≡ post
    → 7 ≤ length req.url
    → expected_of req.content_length ≡ 0
    → length (join chunks) + 1 < 18446744073709551616
    → Ends (conversation al req chunks) (Answer.nothing, MhdResult.mhd_yes)
unannounced-nothing al req chunks mem grow e long size small =
    Ends-equal refl
      (conversation-Ends al req chunks (length (join chunks)) mem e long small (omega arith)
        (inr grow))
      (ap (outcome req (join chunks)) size ∙ never req (join chunks))
