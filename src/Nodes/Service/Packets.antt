-- ===== src/Nodes/Service/Packets.antt =====
-- A heartbeat packet from the sender's buffer to the receiver's.
use wtsl_app.Base.{
  ℕ, ◌+◌, ◌-◌, ◌<◌, ◌≤◌, Bool, true, false, Option, some, List, [], ◌∷◌, ◌++◌, ◌≡◌, refl, ◌∙◌, sym,
  ap, arith, leb, length, take, drop, replicate, length-append, take-length, take-append,
  drop-append,
}
use mathlib.Core.List.{append_assoc}
use wtsl_app.Nodes.{NodeList, Run, ◌>>=◌}
use wtsl_app.Nodes.Service.{
  buf_size, Surroundings, Layout, send_data_to_addr, receive, parse_data, parse_data_heartbeat,
}

abbrev zeros : List ℕ → List ℕ
zeros packet = replicate (buf_size - length packet) 0

not_within : (a b : ℕ) → b < a → leb a b ≡ false
not_within a b lt = ground arith

receive_short : (packet : List ℕ) → length packet ≤ 2047 → receive packet ≡ packet ++ zeros packet
unfolding receive
receive_short packet le = rw (take-length 2047 packet le) refl

take_of : (n : ℕ) (xs ys : List ℕ) → n ≡ length xs → take n (xs ++ ys) ≡ xs
take_of n xs ys e = ap (λ k. take k (xs ++ ys)) e ∙ take-append xs ys

drop_suc : (n : ℕ) (xs ys : List ℕ) → n ≡ length xs → drop (n + 1) (xs ++ 0 ∷ ys) ≡ ys
drop_suc n xs ys e =
    let there : n + 1 ≡ length (xs ++ 0 ∷ []) = omega (arith, length-append xs (0 ∷ [])) in
    ap (drop (n + 1)) (sym (append_assoc xs (0 ∷ []) ys))
    ∙ (ap (λ k. drop k ((xs ++ 0 ∷ []) ++ ys)) there ∙ drop-append (xs ++ 0 ∷ []) ys)

module _ (y : Layout) (header content : List ℕ) where
  -- The header and the content have the sizes of the structures, and fit in the sender's buffer.
  pub record IsSent : Type 0 where
    pub header_length : length header ≡ y.header_size
    pub content_length : length content ≡ y.info_size
    pub fits : length header + length content < 2047

  abbrev packet : List ℕ
  packet = header ++ 0 ∷ content

  sent_size : length packet ≡ length header + length content + 1
  sent_size = omega (arith, length-append header (0 ∷ content))

  received : IsSent → receive packet ≡ header ++ 0 ∷ (content ++ zeros packet)
  received k =
      receive_short packet (omega (arith, sent_size, k.fits))
      ∙ append_assoc header (0 ∷ content) (zeros packet)

  header_of : IsSent → take y.header_size (receive packet) ≡ header
  header_of k =
      ap (take y.header_size) (received k)
      ∙ take_of y.header_size header (0 ∷ (content ++ zeros packet)) (sym k.header_length)

  content_of : IsSent → take y.info_size (drop (y.header_size + 1) (receive packet)) ≡ content
  content_of k =
      ap (take y.info_size) (
        ap (drop (y.header_size + 1)) (received k)
        ∙ drop_suc y.header_size header (content ++ zeros packet) (sym k.header_length))
      ∙ take_of y.info_size content (zeros packet) (sym k.content_length)

  sent : IsSent → send_data_to_addr header content ≡ some packet
  unfolding send_data_to_addr
  sent k = rw (not_within (2048 - length header - 1) (length content) (omega (arith, k.fits))) refl

-- What the receiver does with a heartbeat request of the given information.
abbrev pub answered :
    Option NodeList → List ℕ → Layout → List ℕ → Surroundings → Run (Option NodeList × Bool)
answered list addr y content s =
    parse_data_heartbeat list addr (y.info_of content) s >>= λ list'. Run.value (list', true)

-- A heartbeat request whose header and node information have the sizes of their structures, and fit
-- the sender's buffer, is sent as one packet that fits the receiver's buffer. The receiver handles
-- the same node information, and answers.
pub request-answered :
    (y : Layout) (header content : List ℕ) (list : Option NodeList) (addr : List ℕ)
    (s : Surroundings)
    → IsSent y header content
    → y.type_of header ≡ 0
    → (packet : List ℕ) × (send_data_to_addr header content ≡ some packet)
      × (length packet ≤ buf_size - 1)
      × (parse_data y list addr (receive packet) s ≡ answered list addr y content s)
unfolding parse_data
request-answered y header content list addr s k req = (
  header ++ 0 ∷ content,
  sent y header content k,
  omega (arith, sent_size y header content, k.fits),
  rw (header_of y header content k, content_of y header content k, req) refl,
)
