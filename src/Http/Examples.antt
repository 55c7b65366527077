-- ===== src/Http/Examples.antt =====
-- Examples and tests of the request handling.
use wtsl_app.Base.{
  ℕ, zero, suc, ◌≤◌, true, false, none, some, List, [], ◌∷◌, ◌++◌, ◌≡◌, refl, ◌∙◌, ap, sym, arith,
  length, take, replicate, length-replicate, length-append, length-take, codes,
}
use wtsl_app.Http.{
  RequestData, Request, Answer, MhdResult, Allocator, request_handler, conversation, kept,
  init_request_data,
}
use wtsl_app.Http.Body.{IsReceiving}
use wtsl_app.Http.Chunks.{IsAllocator, CanGrow}
use wtsl_app.Http.Conversation.{post, join, HasMemory}
use wtsl_app.Http.Finish.{Ends}
use wtsl_app.Http.Whole.{chunk-IsReceiving, announced_body-passed, passed}
use wtsl_app.Http.Guard.{IsAllowed, handler-IsAllowed}

-- Memory without end: new blocks are full of 7, and enlarged ones end with 0.
abbrev plenty : Allocator
plenty = record {
  struct_memory = true;
  malloc = λ n. some (replicate n 7);
  realloc = λ b n. some (take n (b ++ replicate n 0));
}

some_injective : {b b' : List ℕ} → some b ≡ some b' → b ≡ b'
some_injective e = cc

take-take : (i n : ℕ) (xs : List ℕ) → i ≤ n → take i (take n xs) ≡ take i xs
take-take zero n xs le = refl
take-take (suc i) zero xs le = absurd (omega arith)
take-take (suc i) (suc n) [] le = refl
take-take (suc i) (suc n) (x ∷ xs) le = ap (λ l. x ∷ l) (take-take i n xs (omega arith))

take_front : (i : ℕ) (xs ys : List ℕ) → i ≤ length xs → take i (xs ++ ys) ≡ take i xs
take_front zero xs ys le = refl
take_front (suc i) [] ys le = absurd (omega arith)
take_front (suc i) (x ∷ xs) ys le = ap (λ l. x ∷ l) (take_front i xs ys (omega arith))

plenty-IsAllocator : IsAllocator plenty
plenty-IsAllocator = record {
  malloc_length = λ n b e. ap length (sym (some_injective e)) ∙ length-replicate {A = ℕ} n 7;
  realloc_length = λ b b' n e.
      ap length (sym (some_injective e))
      ∙ omega (
        arith,
        length-take n (b ++ replicate n 0),
        length-append b (replicate n 0),
        length-replicate {A = ℕ} n 0,
      );
  realloc_keeps = λ b b' n i e le lt.
      ap (take i) (sym (some_injective e))
      ∙ (take-take i n (b ++ replicate n 0) lt ∙ take_front i b (replicate n 0) le);
}

plenty-CanGrow : CanGrow plenty
unfolding CanGrow
plenty-CanGrow = λ b n. (take n (b ++ replicate n 0), refl)

abbrev login : Request
login = record {
  method = post;
  url = codes "/api/v1/user/login";
  content_length = some 3;
  has_auth = false;
}

abbrev body : List (ℕ × List ℕ)
body = (1, 2 ∷ []) ∷ (3, []) ∷ []

login-HasMemory : HasMemory plenty login
login-HasMemory = record {
  allocator = plenty-IsAllocator;
  struct_ok = refl;
  buffer = replicate 4 7;
  buffer_ok = refl;
  addressable = omega arith;
}

announced_body-passed_example : Ends (conversation plenty login body) (passed login (join body))
announced_body-passed_example =
    announced_body-passed plenty login body 3 login-HasMemory refl (omega arith) refl (omega arith)
      refl

abbrev unannounced : Request
unannounced = record login { content_length = none; has_auth = true }

unannounced-HasMemory : HasMemory plenty unannounced
unannounced-HasMemory = record {
  allocator = plenty-IsAllocator;
  struct_ok = refl;
  buffer = replicate 1024 7;
  buffer_ok = refl;
  addressable = omega arith;
}

-- One byte was received, and the buffer is full.
abbrev full : RequestData
full = record {
  data_ = some (5 ∷ 0 ∷ []);
  data_size = 1;
  buffer_capacity = 2;
  expected_size = 3;
  is_complete = false;
  data_received = true;
  response_valid = false;
}

full-IsReceiving : IsReceiving full (5 ∷ [])
full-IsReceiving = record {
  buffer = 5 ∷ 0 ∷ [];
  is_buffer = refl;
  capacity = refl;
  size = refl;
  holds = refl;
  terminated = refl;
  fits = omega arith;
  complete = refl;
}

chunk-IsReceiving_example :
    (rd' : RequestData) × (request_handler plenty (some full) login (6 ∷ 7 ∷ [])
      ≡ kept rd' Answer.nothing MhdResult.mhd_yes)
    × IsReceiving rd' ((5 ∷ []) ++ 6 ∷ 7 ∷ [])
chunk-IsReceiving_example =
    chunk-IsReceiving plenty full login (5 ∷ []) 6 (7 ∷ []) plenty-IsAllocator plenty-CanGrow refl
      full-IsReceiving (omega arith) (omega arith)

abbrev complete : RequestData
complete = record full {
  data_ = some (5 ∷ 6 ∷ 7 ∷ 0 ∷ []);
  data_size = 3;
  buffer_capacity = 4;
  is_complete = true;
}

login_passed :
    request_handler plenty (some complete) login []
    ≡ kept complete
        (Answer.post_answer (codes "/api/v1/user/login") (5 ∷ 6 ∷ 7 ∷ []))
        MhdResult.mhd_yes
unfolding request_handler
login_passed = refl

handler-IsAllowed_example :
    IsAllowed login (Answer.post_answer (codes "/api/v1/user/login") (5 ∷ 6 ∷ 7 ∷ []))
handler-IsAllowed_example =
    handler-IsAllowed plenty (some complete) login []
      (record {
        con_cls = some complete;
        answer = Answer.post_answer (codes "/api/v1/user/login") (5 ∷ 6 ∷ 7 ∷ []);
        result = MhdResult.mhd_yes;
      })
      login_passed

-- A URL that is shorter than what is skipped is read behind its end.
short_url : request_handler plenty (some complete) (record login { url = codes "/" }) [] ≡ none
unfolding request_handler
short_url = refl

-- atoi makes -1 of the Content-Length 4294967295: the buffer gets the size 0, and the terminator is
-- written behind it.
size_wraps : init_request_data plenty (some 18446744073709551615) ≡ none
unfolding init_request_data
size_wraps = refl
