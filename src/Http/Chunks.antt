-- ===== src/Http/Chunks.antt =====
-- Chunks with and without a larger buffer, and the buffer at the start.
use wtsl_app.Base.{
  ℕ, ◌+◌, ◌≤◌, ◌<◌, true, false, Option, some, List, [], ◌∷◌, ◌++◌, ◌≡◌, refl, ◌∙◌, sym, arith, leb,
  ltb, ◌&&◌, length, take, lt→ltb,
}
use wtsl_app.Http.{
  RequestData, Allocator, receive_chunk, init_request_data, begun, capacity_of, expected_of,
}
use wtsl_app.Http.Body.{IsReceiving, IsBuffer, append_chunk-IsReceiving, wrap_small, not_less}

-- What the C library promises: blocks have the size asked for, and realloc keeps the contents.
pub record IsAllocator (al : Allocator) : Type 0 where
  pub malloc_length : (n : ℕ) (b : List ℕ) → al.malloc n ≡ some b → length b ≡ n
  pub realloc_length : (b b' : List ℕ) (n : ℕ) → al.realloc b n ≡ some b' → length b' ≡ n
  pub realloc_keeps :
      (b b' : List ℕ) (n i : ℕ)
      → al.realloc b n ≡ some b'
      → i ≤ length b
      → i ≤ n
      → take i b' ≡ take i b

-- There is memory for any larger buffer.
unfoldable pub CanGrow : Allocator → Type 0
CanGrow al = (b : List ℕ) (n : ℕ) → (b' : List ℕ) × (al.realloc b n ≡ some b')

IsReceiving-IsBuffer :
    (rd : RequestData) (body : List ℕ) (k : IsReceiving rd body) → IsBuffer rd k.buffer body
IsReceiving-IsBuffer rd body k = record {
  capacity = k.capacity;
  size = k.size;
  holds = k.holds;
  complete = k.complete;
}

-- A chunk that the handler takes.
pub record IsTaken (al : Allocator) (rd : RequestData) (body chunk : List ℕ) (rd' : RequestData)
    : Type 0 where
  pub runs : receive_chunk al rd rd.data_ chunk ≡ some rd'
  pub receiving : IsReceiving rd' (body ++ chunk)
  pub same_expected : rd'.expected_size ≡ rd.expected_size
  pub not_smaller : rd.buffer_capacity ≤ rd'.buffer_capacity
  pub addressable : rd'.buffer_capacity < 18446744073709551616

pub chunk_fits :
    (al : Allocator) (rd : RequestData) (body chunk : List ℕ)
    → IsReceiving rd body
    → rd.data_size + length chunk + 1 ≤ rd.buffer_capacity
    → rd.buffer_capacity < 18446744073709551616
    → (rd' : RequestData) × IsTaken al rd body chunk rd'
unfolding receive_chunk
chunk_fits al rd body chunk k room small =
    let (run, after) =
      append_chunk-IsReceiving rd k.buffer body chunk (IsReceiving-IsBuffer rd body k)
        (omega (arith, k.capacity)) (omega (arith, k.capacity)) in
    (
      _,
      record {
        runs =
            rw
              (
                k.is_buffer,
                wrap_small (rd.data_size + length chunk + 1) (omega arith),
                not_less rd.buffer_capacity (rd.data_size + length chunk + 1) room,
              )
              run;
        receiving = after;
        same_expected = refl;
        not_smaller = omega arith;
        addressable = small;
      },
    )

pub chunk_grows :
    (al : Allocator) (rd : RequestData) (body chunk : List ℕ)
    → IsAllocator al
    → CanGrow al
    → IsReceiving rd body
    → rd.buffer_capacity < rd.data_size + length chunk + 1
    → rd.data_size + length chunk + 1 < 18446744073709551616
    → (rd' : RequestData) × IsTaken al rd body chunk rd'
unfolding receive_chunk CanGrow
chunk_grows al rd body chunk ok grow_ok k full small =
    let cap_ : ℕ = rd.data_size + length chunk + 1 in
    let (b, got) = grow_ok k.buffer cap_ in
    let size : length b ≡ cap_ = ok.realloc_length k.buffer b cap_ got in
    let larger : RequestData = record rd { buffer_capacity = cap_ } in
    let (run, after) =
      append_chunk-IsReceiving larger b body chunk
        (record {
          capacity = sym size;
          size = k.size;
          holds =
              ok.realloc_keeps k.buffer b cap_ rd.data_size got (omega (arith, k.capacity, k.fits))
                (omega arith)
              ∙ k.holds;
          complete = k.complete;
        })
        (omega (arith, size)) (omega (arith, size)) in
    (
      _,
      record {
        runs =
            rw (k.is_buffer, wrap_small cap_ small, lt→ltb rd.buffer_capacity cap_ full, got) run;
        receiving = after;
        same_expected = refl;
        not_smaller = omega arith;
        addressable = small;
      },
    )

not_yet : (n : ℕ) → false ≡ (ltb 0 n && leb n 0)
not_yet n = ground arith

capacity_pos : (n : ℕ) → n + 1 < 18446744073709551616 → 0 < capacity_of n
capacity_pos n lt = ground (arith, wrap_small (n + 1) lt)

begun-IsReceiving :
    (n : ℕ) (b : List ℕ)
    → length b ≡ capacity_of n
    → 0 < capacity_of n
    → (rd : RequestData) × (begun n (some b) ≡ some (some rd))
      × IsReceiving rd []
      × (rd.expected_size ≡ n)
      × (rd.buffer_capacity ≡ capacity_of n)
begun-IsReceiving n [] size pos = absurd (omega arith)
begun-IsReceiving n (c ∷ b) size pos = (
  _,
  refl,
  record {
    buffer = 0 ∷ b;
    is_buffer = refl;
    capacity = sym size;
    size = refl;
    holds = refl;
    terminated = refl;
    fits = omega arith;
    complete = not_yet n;
  },
  refl,
  refl,
)

-- A request begins with an empty body in a buffer of the size that malloc was asked for.
pub init-IsReceiving :
    (al : Allocator) (content_length : Option ℕ) (b : List ℕ)
    → IsAllocator al
    → expected_of content_length + 1 < 18446744073709551616
    → al.struct_memory ≡ true
    → al.malloc (capacity_of (expected_of content_length)) ≡ some b
    → (rd : RequestData) × (init_request_data al content_length ≡ some (some rd))
      × IsReceiving rd []
      × (rd.expected_size ≡ expected_of content_length)
      × (rd.buffer_capacity ≡ capacity_of (expected_of content_length))
unfolding init_request_data
init-IsReceiving al content_length b ok small mem got =
    let n = expected_of content_length in
    let (rd, run, k, e, c) =
      begun-IsReceiving n b (ok.malloc_length (capacity_of n) b got) (capacity_pos n small) in
    (rd, rw (mem, got) run, k, e, c)
