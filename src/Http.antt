-- ===== src/Http.antt =====
-- The handling of HTTP requests in src/wtsl_core/protocol/http/wtsl_core_httpmain.c: what is kept of
-- a request between the calls of the handler, the assembly of a POST body, and who is let through.
-- libmicrohttpd calls the handler once without data, then with each chunk of the body, then once
-- without data again. malloc and realloc are parameters, and so is (size_t)atoi of the
-- Content-Length. In a result none is an access out of bounds or through NULL.
mod Body
mod Chunks
mod Finish
mod Conversation
mod Guard
mod Whole
mod Examples
use wtsl_app.Base.{
  ℕ, zero, suc, ◌+◌, ◌%◌, Bool, true, false, not, Option, none, some, List, [], ◌∷◌, ◌++◌, ◌==◌,
  if◌then◌else◌, leb, ltb, ◌&&◌, ◌||◌, length, take, drop, set, Text, codes, text_eq, ◌≡◌, ◌≤◌,
}

-- size_t
abbrev pub wrap : ℕ → ℕ
wrap n = n % 18446744073709551616

abbrev pub buffer_size : ℕ
buffer_size = 1024

-- data is none where the pointer is NULL. The fixed response text is never sent.
pub record RequestData : Type 0 where
  pub data_ : Option (List ℕ)
  pub data_size : ℕ
  pub buffer_capacity : ℕ
  pub expected_size : ℕ
  pub is_complete : Bool
  pub data_received : Bool
  pub response_valid : Bool

-- The contents of the block, none if there is no memory. struct_memory is for struct request_data.
pub record Allocator : Type 0 where
  pub struct_memory : Bool
  pub malloc : ℕ → Option (List ℕ)
  pub realloc : List ℕ → ℕ → Option (List ℕ)

abbrev pub expected_of : Option ℕ → ℕ
expected_of none = 0
expected_of (some n) = n

abbrev pub capacity_of : ℕ → ℕ
capacity_of n = if ltb 0 n then wrap (n + 1) else buffer_size

-- data[0] = 0 in the new buffer.
abbrev begun : ℕ → Option (List ℕ) → Option (Option RequestData)
begun n none = some none
begun n (some []) = none
begun n (some (c ∷ b)) = some (
    some (record {
      data_ = some (0 ∷ b);
      data_size = 0;
      buffer_capacity = capacity_of n;
      expected_size = n;
      is_complete = false;
      data_received = false;
      response_valid = false;
    }))

-- The inner none is the NULL that the function returns without memory.
pub init_request_data : Allocator → Option ℕ → Option (Option RequestData)
init_request_data al content_length =
    let n = expected_of content_length in
    if al.struct_memory then begun n (al.malloc (capacity_of n)) else some none

-- What is answered. The answer to GET and POST is that of the interface behind the server.
pub data Answer : Type 0 where
  nothing : Answer
  preflight : Answer
  internal_error : Answer
  get_answer : Text → Answer
  post_answer : Text → List ℕ → Answer

-- queued is what MHD_queue_response returns.
pub data MhdResult : Type 0 where
  mhd_yes : MhdResult
  mhd_no : MhdResult
  queued : MhdResult

pub record Request : Type 0 where
  pub method : Text
  pub url : Text
  pub content_length : Option ℕ
  pub has_auth : Bool

pub record Handled : Type 0 where
  pub con_cls : Option RequestData
  pub answer : Answer
  pub result : MhdResult

-- memcpy to an offset of the block, within it.
abbrev pub put : List ℕ → ℕ → List ℕ → List ℕ
put b i xs = take i b ++ (xs ++ drop (i + length xs) b)

-- The chunk and a terminator in the buffer, with the new data size.
abbrev stored : RequestData → List ℕ → List ℕ → ℕ → RequestData
stored rd b upload size = record rd {
  data_ = some (set (put b rd.data_size upload) size 0);
  data_size = size;
  data_received = true;
  is_complete =
      if ltb 0 rd.expected_size && leb rd.expected_size size then true else rd.is_complete;
}

-- The write stays within the buffer.
pub append_chunk : RequestData → List ℕ → List ℕ → Option RequestData
append_chunk rd b upload =
    if leb (rd.data_size + length upload + 1) (length b)
    then some (stored rd b upload (wrap (rd.data_size + length upload)))
    else none

abbrev grow : RequestData → ℕ → List ℕ → Option (List ℕ) → Option RequestData
grow rd cap upload none = none
grow rd cap upload (some b) = append_chunk (record rd { buffer_capacity = cap }) b upload

-- A chunk. Without memory for a larger buffer the pointer becomes NULL and is written through.
pub receive_chunk : Allocator → RequestData → Option (List ℕ) → List ℕ → Option RequestData
unfolding append_chunk
receive_chunk al rd none upload = none
receive_chunk al rd (some b) upload =
    let cap = wrap (rd.data_size + length upload + 1) in
    if ltb rd.buffer_capacity cap
    then grow rd cap upload (al.realloc b cap)
    else append_chunk rd b upload

-- The URLs behind the seven characters of "/api/v1" that need no authorization.
abbrev pub is_open : Text → Bool
is_open path =
    text_eq path (codes "/user/register")
    || text_eq path (codes "/user/login")
    || text_eq path (codes "/user/change_pwd")

abbrev kept : RequestData → Answer → MhdResult → Option Handled
kept rd answer result = some (record { con_cls = some rd; answer = answer; result = result })

abbrev post_data : Text → RequestData → Option (List ℕ) → Option Handled
post_data url rd none = none
post_data url rd (some b) = kept rd (post_answer url (take rd.data_size b)) mhd_yes

-- The call after the last chunk. `url + 7` is behind the end of a shorter URL.
pub finish_post : RequestData → Request → Option Handled
finish_post rd req =
    if rd.is_complete
    then (if ltb (length req.url) 7
        then none
        else (if not req.has_auth && not (is_open (drop 7 req.url))
            then kept rd nothing mhd_no
            else post_data req.url rd rd.data_))
    else kept rd nothing mhd_yes

abbrev chunk_taken : Option RequestData → Option Handled
chunk_taken none = none
chunk_taken (some rd) = kept rd nothing mhd_yes

pub handle_post : Allocator → RequestData → Request → List ℕ → Option Handled
unfolding receive_chunk finish_post
handle_post al rd req [] = finish_post rd req
handle_post al rd req (c ∷ upload) = chunk_taken (receive_chunk al rd rd.data_ (c ∷ upload))

abbrev started : Option (Option RequestData) → Option Handled
started none = none
started (some none) = some (record { con_cls = none; answer = internal_error; result = mhd_yes })
started (some (some rd)) = kept rd nothing mhd_yes

pub request_handler : Allocator → Option RequestData → Request → List ℕ → Option Handled
unfolding init_request_data handle_post
request_handler al none req upload = started (init_request_data al req.content_length)
request_handler al (some rd) req upload =
    let post = handle_post al rd req upload in
    if text_eq req.method (codes "OPTIONS")
    then kept rd preflight queued
    else (if text_eq req.method (codes "GET")
        then (if req.has_auth then kept rd (get_answer req.url) queued else kept rd nothing mhd_no)
        else (if text_eq req.method (codes "POST") then post else kept rd internal_error mhd_yes))

abbrev pub then_on : Option Handled → (Handled → Option Handled) → Option Handled
then_on none f = none
then_on (some h) f = f h

-- The calls of the handler for the chunks of a body, none of them empty, and the last call.
pub feed : Allocator → Request → Option RequestData → List (ℕ × List ℕ) → Option Handled
unfolding request_handler
feed al req con_cls [] = request_handler al con_cls req []
feed al req con_cls ((c, upload) ∷ chunks) =
    then_on (request_handler al con_cls req (c ∷ upload)) (λ h. feed al req h.con_cls chunks)

-- All calls of the handler for a request.
pub conversation : Allocator → Request → List (ℕ × List ℕ) → Option Handled
unfolding feed
conversation al req chunks =
    then_on (request_handler al none req []) (λ h. feed al req h.con_cls chunks)
