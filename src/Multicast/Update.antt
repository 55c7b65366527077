-- ===== src/Multicast/Update.antt =====
-- `update_node_list` on the abstract table: the entry of the address is refreshed in place, or a new
-- one is added behind the others while there is room.
use mathlib.Core.List.{append_assoc}
use wtsl_app.Base.{
  ℕ, ◌+◌, ◌≤◌, ◌≡◌, refl, sym, ap, ◌∙◌, true, false, none, some, List, [], ◌∷◌, ◌++◌, inl, inr,
  arith, ltb, Bool-cases, if◌then◌else◌, length, take-length, get_or-append, set-append,
  length-append, Text, text_eq, text_eq_iff, set,
}
use wtsl_app.Multicast.{
  McNodeInfo, McTable, blank, ip_chars, max_nodes, refresh_loop, add_node, update_node_list,
}
use wtsl_app.Multicast.Live.{IsTable, has_ip, last_seen, Distinct, refreshed, touched, survivors}

refresh_loop-append :
    (pre xs dead : List McNodeInfo) (i : ℕ) (ip : Text) (now : ℕ)
    → i ≡ length pre
    → refresh_loop (length xs) i (pre ++ (xs ++ dead)) ip now
      ≡ (if has_ip ip xs then some (pre ++ (refreshed ip now xs ++ dead)) else none)
unfolding refresh_loop
refresh_loop-append pre [] dead i ip now e = refl
refresh_loop-append pre (x ∷ xs) dead i ip now e =
    rw (get_or-append pre (xs ++ dead) i x blank e) (elim (Bool-cases (text_eq x.ip ip)) [
      | inl hit ↦ rw hit (ap (λ l. some l) (set-append pre (xs ++ dead) i x _ e))
      | inr miss ↦ rw miss (
          ap (λ l. refresh_loop (length xs) (i + 1) l ip now) (sym (append_assoc pre (x ∷ []) _))
          ∙ refresh_loop-append (pre ++ x ∷ []) xs dead (i + 1) ip now
              (omega (arith, length-append pre (x ∷ [])))
          ∙ rw append_assoc refl)
    ])

length-refreshed :
    (ip : Text) (now : ℕ) (xs : List McNodeInfo) → length (refreshed ip now xs) ≡ length xs
length-refreshed ip now [] = refl
length-refreshed ip now (x ∷ xs) = ground (arith, length-refreshed ip now xs)

refresh-IsTable :
    {t : McTable} {live : List McNodeInfo} (ip : Text) (now : ℕ)
    → (h : IsTable t live)
    → IsTable (record t { mc_nodes = refreshed ip now live ++ h.dead }) (refreshed ip now live)
refresh-IsTable {live} ip now h = record {
  dead = h.dead;
  cells = refl;
  counted = omega (arith, h.counted, length-refreshed ip now live);
  total = omega (arith, h.total, length-refreshed ip now live);
}

add-cells :
    (live dead : List McNodeInfo) (i : ℕ) (n : McNodeInfo)
    → i ≡ length live
    → length live + length dead ≡ max_nodes
    → i + 1 ≤ max_nodes
    → (rest : List McNodeInfo) × (set (live ++ dead) i n ≡ (live ++ n ∷ []) ++ rest)
      × (length (live ++ n ∷ []) + length rest ≡ max_nodes)
add-cells live [] i n e total room = absurd (omega arith)
add-cells live (d ∷ dead) i n e total room = (
  dead,
  set-append live dead i d n e ∙ sym (append_assoc live (n ∷ []) dead),
  omega (arith, length-append live (n ∷ [])),
)

add_node-IsTable :
    {t : McTable} {live : List McNodeInfo} (ip : Text) (now : ℕ)
    → length ip ≤ ip_chars
    → IsTable t live
    → IsTable (add_node t ip now) (
        if ltb (length live) max_nodes
        then live ++ record { ip = ip; last_heartbeat = now } ∷ []
        else live)
unfolding add_node
add_node-IsTable {t} {live} ip now short h = elim (Bool-cases (ltb (length live) max_nodes)) [
  | inr full ↦
      let stays : ltb t.mc_node_count max_nodes ≡ false = ground (arith, h.counted) in
      rw (stays, full) h
  | inl room ↦
      let (rest, cells, total) =
        add-cells live h.dead (length live) (record { ip = ip; last_heartbeat = now }) refl h.total
          (ground arith) in
      rw (h.counted, take-length ip_chars ip short, room)
        (record {
          dead = rest;
          cells =
              ap (λ l. set l (length live) (record { ip = ip; last_heartbeat = now })) h.cells
              ∙ cells;
          counted =
              omega (arith, length-append live (record { ip = ip; last_heartbeat = now } ∷ []));
          total = total;
        })
]

-- `update_node_list` keeps the array well formed, and does to the table what a heartbeat means:
-- the entry of the address is refreshed where it stands, or else an entry is added at the end if
-- fewer than 1024 are there. An address of `inet_ntoa` has at most 15 characters.
pub update-touched :
    {t : McTable} {live : List McNodeInfo} (ip : Text) (now : ℕ)
    → length ip ≤ ip_chars
    → IsTable t live
    → IsTable (update_node_list t ip now) (touched ip now live)
unfolding update_node_list
update-touched {t} {live} ip now short h = rw searched (elim (Bool-cases (has_ip ip live)) [
  | inl old ↦ rw old (refresh-IsTable ip now h)
  | inr new ↦ rw new (add_node-IsTable ip now short h)
])
  where
    searched :
        refresh_loop t.mc_node_count 0 t.mc_nodes ip now
        ≡ (if has_ip ip live then some (refreshed ip now live ++ h.dead) else none)
    searched =
        ap (λ k. refresh_loop k 0 t.mc_nodes ip now) h.counted
        ∙ ap (λ l. refresh_loop (length live) 0 l ip now) h.cells
        ∙ refresh_loop-append [] live h.dead 0 ip now refl

module _ (ip : Text) (now : ℕ) where
  has_ip-refreshed :
      (j : Text) (xs : List McNodeInfo) → has_ip j (refreshed ip now xs) ≡ has_ip j xs
  has_ip-refreshed j [] = refl
  has_ip-refreshed j (x ∷ xs) = ground (arith, has_ip-refreshed j xs)

  Distinct-refreshed : (xs : List McNodeInfo) → Distinct xs → Distinct (refreshed ip now xs)
  Distinct-refreshed [] d = d
  Distinct-refreshed (x ∷ xs) d = elim (Bool-cases (text_eq x.ip ip)) [
    | inl hit ↦ rw hit d
    | inr miss ↦ rw miss (has_ip-refreshed x.ip xs ∙ d.0, Distinct-refreshed xs d.1)
  ]

has_ip-append :
    (j : Text) (n : McNodeInfo) (xs : List McNodeInfo)
    → has_ip j (xs ++ n ∷ []) ≡ (if has_ip j xs then true else text_eq n.ip j)
has_ip-append j n [] = ground arith
has_ip-append j n (x ∷ xs) = ground (arith, has_ip-append j n xs)

Distinct-append :
    (n : McNodeInfo) (xs : List McNodeInfo)
    → has_ip n.ip xs ≡ false
    → Distinct xs
    → Distinct (xs ++ n ∷ [])
Distinct-append n [] h d = (refl, tt)
Distinct-append n (x ∷ xs) h d = (
  ground (arith, d.0, has_ip-append x.ip n xs, text_eq_iff n.ip x.ip, text_eq_iff x.ip n.ip),
  Distinct-append n xs (ground arith) d.1,
)

-- A heartbeat keeps the addresses distinct.
pub Distinct-touched :
    (ip : Text) (now : ℕ) (xs : List McNodeInfo) → Distinct xs → Distinct (touched ip now xs)
Distinct-touched ip now xs d = elim (Bool-cases (has_ip ip xs)) [
  | inl old ↦ rw old (Distinct-refreshed ip now xs d)
  | inr new ↦ rw new (elim (Bool-cases (ltb (length xs) max_nodes)) [
    | inl room ↦ rw room (Distinct-append _ xs new d)
    | inr full ↦ rw full d
  ])
]

last_seen-refreshed :
    (ip : Text) (now : ℕ) (j : Text) (xs : List McNodeInfo)
    → has_ip ip xs ≡ true
    → last_seen j (refreshed ip now xs) ≡ (if text_eq ip j then some now else last_seen j xs)
last_seen-refreshed ip now j [] h = cc
last_seen-refreshed ip now j (x ∷ xs) h = ground (
  arith,
  text_eq_iff x.ip ip,
  text_eq_iff x.ip j,
  text_eq_iff ip j,
  last_seen-refreshed ip now j xs,
)

last_seen-append :
    (j : Text) (n : McNodeInfo) (xs : List McNodeInfo)
    → last_seen j (xs ++ n ∷ []) ≡ (
        if has_ip j xs
        then last_seen j xs
        else if text_eq n.ip j
        then some n.last_heartbeat
        else none)
last_seen-append j n [] = refl
last_seen-append j n (x ∷ xs) = ground (arith, last_seen-append j n xs)

last_seen-none : (j : Text) (xs : List McNodeInfo) → has_ip j xs ≡ false → last_seen j xs ≡ none
last_seen-none j [] h = refl
last_seen-none j (x ∷ xs) h = ground (arith, last_seen-none j xs)

-- After a heartbeat the peer was last heard of now, unless it is new and the table is full, and no
-- other peer is affected.
pub last_seen-touched :
    (ip : Text) (now : ℕ) (j : Text) (xs : List McNodeInfo)
    → last_seen j (touched ip now xs) ≡ (
        if text_eq ip j
        then (if has_ip ip xs
            then some now
            else if ltb (length xs) max_nodes
            then some now
            else none)
        else last_seen j xs)
last_seen-touched ip now j xs = ground (
  arith,
  last_seen-refreshed ip now j xs,
  text_eq_iff ip j,
  last_seen-none j xs,
  last_seen-append j (record { ip = ip; last_heartbeat = now }) xs,
)

has_ip-survivors :
    (now : ℕ) (j : Text) (xs : List McNodeInfo)
    → has_ip j xs ≡ false
    → has_ip j (survivors now xs) ≡ false
has_ip-survivors now j [] h = refl
has_ip-survivors now j (x ∷ xs) h = ground (arith, has_ip-survivors now j xs)

-- The removal of silent peers keeps the addresses distinct.
pub Distinct-survivors :
    (now : ℕ) (xs : List McNodeInfo) → Distinct xs → Distinct (survivors now xs)
Distinct-survivors now [] d = d
Distinct-survivors now (x ∷ xs) d =
    ground (arith, Distinct-survivors now xs d.1, has_ip-survivors now x.ip xs d.0)
