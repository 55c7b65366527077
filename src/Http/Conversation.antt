-- ===== src/Http/Conversation.antt =====
-- A whole POST request, from the first call of the handler to the last.
use mathlib.Core.List.{append_assoc}
use wtsl_app.Base.{
  ℕ, ◌+◌, ◌≤◌, ◌<◌, true, false, Option, none, some, List, [], ◌∷◌, ◌++◌, ◌≡◌, refl, ◌∙◌, ◌⊎◌, sym,
  ap, arith, ltb, length, length-append, Bool-cases, inl, inr, codes, ltb→lt,
}
use wtsl_app.Http.{
  RequestData, Request, Handled, Answer, MhdResult, Allocator, request_handler, handle_post, kept,
  chunk_taken, feed, conversation, finish_post, then_on, expected_of, capacity_of,
  init_request_data, started,
}
use wtsl_app.Http.Body.{IsReceiving}
use wtsl_app.Http.Chunks.{IsAllocator, CanGrow, IsTaken, chunk_fits, chunk_grows, init-IsReceiving}
use wtsl_app.Http.Finish.{Ends, outcome, finish-outcome}

abbrev pub post : List ℕ
post = codes "POST"

-- The bytes of all chunks.
abbrev pub join : List (ℕ × List ℕ) → List ℕ
join [] = []
join ((c, upload) ∷ chunks) = (c ∷ upload) ++ join chunks

pub at_least_of : (a b : ℕ) → ltb a b ≡ false → b ≤ a
at_least_of a b e = ground arith

capacity_small :
    (n c : ℕ) → n + 1 < 18446744073709551616 → c ≡ capacity_of n → c < 18446744073709551616
capacity_small n c lt e = ground arith

pub post_call :
    (al : Allocator) (rd : RequestData) (req : Request) (upload : List ℕ)
    → req.method ≡ post
    → request_handler al (some rd) req upload ≡ handle_post al rd req upload
unfolding request_handler
post_call al rd req upload e = rw e refl

pub chunk_call :
    (al : Allocator) (rd rd' : RequestData) (req : Request) (body : List ℕ) (c : ℕ)
    (upload : List ℕ)
    → req.method ≡ post
    → IsTaken al rd body (c ∷ upload) rd'
    → request_handler al (some rd) req (c ∷ upload) ≡ kept rd' Answer.nothing MhdResult.mhd_yes
unfolding handle_post
chunk_call al rd rd' req body c upload e k =
    post_call al rd req (c ∷ upload) e ∙ ap chunk_taken k.runs

-- Whether the buffer has room for the body, or can be made larger.
unfoldable pub HasRoom : Allocator → RequestData → ℕ → Type 0
HasRoom al rd n = (n + 1 ≤ rd.buffer_capacity) ⊎ CanGrow al

-- A request in the middle of its body, with room for n bytes.
pub record IsMidway (al : Allocator) (rd : RequestData) (body : List ℕ) (n : ℕ) : Type 0 where
  pub receiving : IsReceiving rd body
  pub room : HasRoom al rd n
  pub addressable : rd.buffer_capacity < 18446744073709551616

pub taken :
    (al : Allocator) (rd : RequestData) (body chunk : List ℕ) (n : ℕ)
    → IsAllocator al
    → n + 1 < 18446744073709551616
    → length body + length chunk ≤ n
    → IsMidway al rd body n
    → (rd' : RequestData) × IsTaken al rd body chunk rd'
unfolding HasRoom
taken al rd body chunk n ok small le k =
    let need : ℕ = rd.data_size + length chunk + 1 in
    elim (Bool-cases (ltb rd.buffer_capacity need)) [
      | inl full ↦ elim k.room [
        | inl enough ↦ absurd (omega (arith, ltb→lt rd.buffer_capacity need full, k.receiving.size))
        | inr grow ↦
            chunk_grows al rd body chunk ok grow k.receiving (ltb→lt rd.buffer_capacity need full)
              (omega (arith, k.receiving.size))
      ]
      | inr free ↦
          chunk_fits al rd body chunk k.receiving (at_least_of rd.buffer_capacity need free)
            k.addressable
    ]

taken-IsMidway :
    (al : Allocator) (rd rd' : RequestData) (body chunk : List ℕ) (n : ℕ)
    → IsMidway al rd body n
    → IsTaken al rd body chunk rd'
    → IsMidway al rd' (body ++ chunk) n
unfolding HasRoom
taken-IsMidway al rd rd' body chunk n k t = record {
  receiving = t.receiving;
  room = elim k.room [ inl enough ↦ inl (omega (arith, t.not_smaller)) | inr grow ↦ inr grow ];
  addressable = t.addressable;
}

append_nil : (xs : List ℕ) → xs ++ [] ≡ xs
append_nil [] = refl
append_nil (x ∷ xs) = ap (λ l. x ∷ l) (append_nil xs)

last_call :
    (al : Allocator) (rd : RequestData) (req : Request)
    → req.method ≡ post
    → request_handler al (some rd) req [] ≡ finish_post rd req
unfolding handle_post
last_call al rd req e = post_call al rd req [] e

pub Ends-equal :
    {r r' : Option Handled} {o o' : Answer × MhdResult} → r' ≡ r → Ends r o → o ≡ o' → Ends r' o'
Ends-equal e k eo = record {
  last = k.last;
  returns = e ∙ k.returns;
  answers = k.answers ∙ ap (λ x. x.0) eo;
  results = k.results ∙ ap (λ x. x.1) eo;
}

feed-outcome :
    (al : Allocator) (req : Request) (n : ℕ) (chunks : List (ℕ × List ℕ)) (rd : RequestData)
    (body : List ℕ)
    → IsAllocator al
    → req.method ≡ post
    → 7 ≤ length req.url
    → n + 1 < 18446744073709551616
    → length body + length (join chunks) ≤ n
    → IsMidway al rd body n
    → Ends (feed al req (some rd) chunks) (outcome req (body ++ join chunks) rd.expected_size)
unfolding feed
feed-outcome al req n [] rd body ok e long small le k =
    Ends-equal (last_call al rd req e) (finish-outcome rd req body k.receiving long)
      (ap (λ w. outcome req w rd.expected_size) (sym (append_nil body)))
feed-outcome al req n ((c, upload) ∷ chunks) rd body ok e long small le k =
    let (rd', t) =
      taken al rd body (c ∷ upload) n ok small
        (omega (arith, length-append (c ∷ upload) (join chunks))) k in
    Ends-equal
      (ap (λ o. then_on o (λ h. feed al req h.con_cls chunks))
        (chunk_call al rd rd' req body c upload e t))
      (feed-outcome al req n chunks rd' (body ++ c ∷ upload) ok e long small
        (omega (arith, length-append (c ∷ upload) (join chunks), length-append body (c ∷ upload)))
        (taken-IsMidway al rd rd' body (c ∷ upload) n k t))
      (ap (λ w. outcome req w rd'.expected_size) (append_assoc body (c ∷ upload) (join chunks))
        ∙ ap (outcome req (body ++ join ((c, upload) ∷ chunks))) t.same_expected)

first_call :
    (al : Allocator) (req : Request) (rd : RequestData)
    → init_request_data al req.content_length ≡ some (some rd)
    → request_handler al none req [] ≡ kept rd Answer.nothing MhdResult.mhd_yes
unfolding request_handler
first_call al req rd e = ap started e

-- The memory that a request takes: its structure, and a buffer for the announced size.
pub record HasMemory (al : Allocator) (req : Request) : Type 0 where
  pub allocator : IsAllocator al
  pub struct_ok : al.struct_memory ≡ true
  pub buffer : List ℕ
  pub buffer_ok : al.malloc (capacity_of (expected_of req.content_length)) ≡ some buffer
  pub addressable : expected_of req.content_length + 1 < 18446744073709551616

pub conversation-Ends :
    (al : Allocator) (req : Request) (chunks : List (ℕ × List ℕ)) (n : ℕ)
    → HasMemory al req
    → req.method ≡ post
    → 7 ≤ length req.url
    → n + 1 < 18446744073709551616
    → length (join chunks) ≤ n
    → (n + 1 ≤ capacity_of (expected_of req.content_length)) ⊎ CanGrow al
    → Ends (conversation al req chunks) (outcome req (join chunks) (expected_of req.content_length))
unfolding conversation HasRoom
conversation-Ends al req chunks n mem e long small le room =
    let size = expected_of req.content_length in
    let (rd, run, k, e_size, e_cap) =
      init-IsReceiving al req.content_length mem.buffer mem.allocator mem.addressable mem.struct_ok
        mem.buffer_ok in
    Ends-equal (ap (λ o. then_on o (λ h. feed al req h.con_cls chunks)) (first_call al req rd run))
      (feed-outcome al req n chunks rd [] mem.allocator e long small (omega arith) (record {
        receiving = k;
        room = elim room [ inl r ↦ inl (omega (arith, e_cap)) | inr g ↦ inr g ];
        addressable = capacity_small size rd.buffer_capacity mem.addressable e_cap;
      }))
      (ap (outcome req (join chunks)) e_size)
