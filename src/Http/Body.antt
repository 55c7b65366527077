-- ===== src/Http/Body.antt =====
-- A chunk of a POST body in the buffer.
use mathlib.Core.List.{append_assoc}
use wtsl_app.Base.{
  ℕ, zero, suc, ◌+◌, ◌≤◌, ◌<◌, Bool, true, false, some, List, [], ◌∷◌, ◌++◌, ◌≡◌, refl, ◌∙◌, sym,
  ap, arith, if◌then◌else◌, leb, ltb, ◌&&◌, length, take, drop, set, get_elem?, length-append,
  length-take, length-drop, take-append, length-set, get_elem?-set_self, le→leb,
}
use wtsl_app.Http.{RequestData, wrap, put, stored, append_chunk}

take-set : (n : ℕ) (xs : List ℕ) (v : ℕ) → take n (set xs n v) ≡ take n xs
take-set zero xs v = refl
take-set (suc n) [] v = refl
take-set (suc n) (x ∷ xs) v = ap (λ l. x ∷ l) (take-set n xs v)

take_all : (n : ℕ) (xs ys : List ℕ) → n ≡ length xs → take n (xs ++ ys) ≡ xs
take_all n xs ys e = ap (λ k. take k (xs ++ ys)) e ∙ take-append xs ys

length-put :
    (b : List ℕ) (i : ℕ) (xs : List ℕ) → i + length xs ≤ length b → length (put b i xs) ≡ length b
length-put b i xs le = omega (
  arith,
  length-append (take i b) (xs ++ drop (i + length xs) b),
  length-append xs (drop (i + length xs) b),
  length-take i b,
  length-drop (i + length xs) b,
)

take-put :
    (b : List ℕ) (i : ℕ) (xs : List ℕ)
    → i + length xs ≤ length b
    → take (i + length xs) (put b i xs) ≡ take i b ++ xs
take-put b i xs le =
    let rest = drop (i + length xs) b in
    ap (take (i + length xs)) (sym (append_assoc (take i b) xs rest))
    ∙ take_all (i + length xs) (take i b ++ xs) rest
        (omega (arith, length-append (take i b) xs, length-take i b))

pub wrap_small : (n : ℕ) → n < 18446744073709551616 → wrap n ≡ n
wrap_small n lt = omega arith

-- The buffer holds the body received so far and a terminator, and the capacity is its size.
pub record IsReceiving (rd : RequestData) (body : List ℕ) : Type 0 where
  pub buffer : List ℕ
  pub is_buffer : rd.data_ ≡ some buffer
  pub capacity : rd.buffer_capacity ≡ length buffer
  pub size : rd.data_size ≡ length body
  pub holds : take rd.data_size buffer ≡ body
  pub terminated : get_elem? buffer rd.data_size ≡ some 0
  pub fits : rd.data_size + 1 ≤ rd.buffer_capacity
  pub complete : rd.is_complete ≡ (ltb 0 rd.expected_size && leb rd.expected_size rd.data_size)

pub not_less : (a b : ℕ) → b ≤ a → ltb a b ≡ false
not_less a b le = ground arith

grown_complete :
    (e n m : ℕ) (c : Bool)
    → n ≤ m
    → c ≡ (ltb 0 e && leb e n)
    → (if ltb 0 e && leb e m then true else c) ≡ (ltb 0 e && leb e m)
grown_complete e n m c le eq = rw eq (ground arith)

-- A request whose buffer b holds the body, but may not fit what its capacity says.
pub record IsBuffer (rd : RequestData) (b body : List ℕ) : Type 0 where
  pub capacity : rd.buffer_capacity ≡ length b
  pub size : rd.data_size ≡ length body
  pub holds : take rd.data_size b ≡ body
  pub complete : rd.is_complete ≡ (ltb 0 rd.expected_size && leb rd.expected_size rd.data_size)

stored-IsReceiving :
    (rd : RequestData) (b body chunk : List ℕ)
    → IsBuffer rd b body
    → rd.data_size + length chunk + 1 ≤ length b
    → IsReceiving (stored rd b chunk (rd.data_size + length chunk)) (body ++ chunk)
stored-IsReceiving rd b body chunk k room =
    let n : ℕ = rd.data_size + length chunk in
    let same : length (put b rd.data_size chunk) ≡ length b =
      length-put b rd.data_size chunk (omega arith) in
    record {
      buffer = set (put b rd.data_size chunk) n 0;
      is_buffer = refl;
      capacity = k.capacity ∙ sym (length-set (put b rd.data_size chunk) n 0 ∙ same);
      size = omega (arith, length-append body chunk, k.size);
      holds =
          take-set n (put b rd.data_size chunk) 0
          ∙ (take-put b rd.data_size chunk (omega arith) ∙ ap (λ t. t ++ chunk) k.holds);
      terminated = get_elem?-set_self (put b rd.data_size chunk) n 0 (omega (arith, same));
      fits = omega (arith, k.capacity, room);
      complete =
          grown_complete rd.expected_size rd.data_size n rd.is_complete (omega arith) k.complete;
    }

pub append_chunk-IsReceiving :
    (rd : RequestData) (b body chunk : List ℕ)
    → IsBuffer rd b body
    → rd.data_size + length chunk + 1 ≤ length b
    → length b < 18446744073709551616
    → (append_chunk rd b chunk ≡ some (stored rd b chunk (rd.data_size + length chunk)))
      × IsReceiving (stored rd b chunk (rd.data_size + length chunk)) (body ++ chunk)
unfolding append_chunk
append_chunk-IsReceiving rd b body chunk k room small = (
  rw
      (
        le→leb (rd.data_size + length chunk + 1) (length b) room,
        wrap_small (rd.data_size + length chunk) (omega arith),
      )
      refl,
  stored-IsReceiving rd b body chunk k room,
)
