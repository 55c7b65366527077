-- ===== src/Multicast/Rounds.antt =====
-- Runs of the service loop `wtsl_core_splink_gnode_service`: the table stays well formed whatever
-- arrives, and heartbeats are at least a minute apart.
use wtsl_app.Base.{ℕ, ◌+◌, ◌≤◌, ◌≡◌, refl, List, [], ◌∷◌, inl, inr, arith, leb, Bool-cases, length}
use wtsl_app.Multicast.{
  McNodeInfo, McTable, Poll, select_failed, no_data, recv_failed, packet, ip_chars,
  heartbeat_interval, is_heartbeat, recv_heartbeats, Service, service_round, clean_timeout_mc_nodes,
}
use wtsl_app.Multicast.Live.{IsTable, Distinct, survivors, touched}
use wtsl_app.Multicast.Clean.{clean-survivors}
use wtsl_app.Multicast.Update.{update-touched, Distinct-touched, Distinct-survivors}

-- The sender's address comes from `inet_ntoa`, which writes at most 15 characters.
abbrev pub HasShortIp : Poll → Type 0
HasShortIp (packet ip bytes) = length ip ≤ ip_chars
HasShortIp _ = Unit

-- The table is well formed and no peer stands in it twice.
pub record IsPeerTable (t : McTable) : Type 0 where
  pub live : List McNodeInfo
  pub array : IsTable t live
  pub distinct : Distinct live

recv-IsPeerTable :
    {t : McTable} (poll : Poll) (now : ℕ)
    → HasShortIp poll
    → IsPeerTable t
    → IsPeerTable (recv_heartbeats t poll now)
unfolding recv_heartbeats
recv-IsPeerTable select_failed now short h = h
recv-IsPeerTable no_data now short h = h
recv-IsPeerTable recv_failed now short h = h
recv-IsPeerTable (packet ip bytes) now short h = elim (Bool-cases (is_heartbeat bytes)) [
  | inr other ↦ rw other h
  | inl beat ↦ rw beat (record {
    live = touched ip now h.live;
    array = update-touched ip now short h.array;
    distinct = Distinct-touched ip now h.live h.distinct;
  })
]

clean-IsPeerTable :
    {t : McTable} (now : ℕ) → IsPeerTable t → IsPeerTable (clean_timeout_mc_nodes t now)
clean-IsPeerTable now h = record {
  live = survivors now h.live;
  array = clean-survivors now h.array;
  distinct = Distinct-survivors now h.live h.distinct;
}

-- One turn of the loop as the environment decides it: the clock at its start, what the socket
-- reports, and the clock when a packet is stored.
pub record ServiceTurn : Type 0 where
  pub now : ℕ
  pub poll : Poll
  pub later : ℕ

abbrev pub run : Service → List ServiceTurn → Service
run s [] = s
run s (u ∷ us) = run (service_round s u.now u.poll u.later) us

abbrev pub AllShort : List ServiceTurn → Type 0
AllShort [] = Unit
AllShort (u ∷ us) = HasShortIp u.poll × AllShort us

round-IsPeerTable :
    (s : Service) (u : ServiceTurn)
    → HasShortIp u.poll
    → IsPeerTable s.table
    → IsPeerTable (service_round s u.now u.poll u.later).table
unfolding service_round
round-IsPeerTable s u short h =
    elim (Bool-cases (leb (s.last_send_time + heartbeat_interval) u.now)) [
      | inl due ↦ rw due (recv-IsPeerTable u.poll u.later short (clean-IsPeerTable u.now h))
      | inr early ↦ rw early (recv-IsPeerTable u.poll u.later short h)
    ]

-- Whatever the clock and the socket do, and for any number of rounds, the array stays well formed:
-- at most 1024 peers, none of them twice. Sender addresses have at most 15 characters.
pub run-IsPeerTable :
    (s : Service) (us : List ServiceTurn)
    → AllShort us
    → IsPeerTable s.table
    → IsPeerTable (run s us).table
run-IsPeerTable s [] short h = h
run-IsPeerTable s (u ∷ us) short h =
    run-IsPeerTable (service_round s u.now u.poll u.later) us short.1
      (round-IsPeerTable s u short.0 h)

-- Consecutive heartbeats, the later one first, are at least a minute apart, and the last one was
-- sent at `last`.
abbrev pub Spaced : ℕ → List ℕ → Type 0
Spaced last [] = Unit
Spaced last (x ∷ []) = x ≡ last
Spaced last (x ∷ y ∷ ys) = (x ≡ last) × (y + heartbeat_interval ≤ x) × Spaced y (y ∷ ys)

round-Spaced :
    (s : Service) (u : ServiceTurn)
    → Spaced s.last_send_time s.sent
    → Spaced
        (service_round s u.now u.poll u.later).last_send_time
        (service_round s u.now u.poll u.later).sent
unfolding service_round
round-Spaced s u h = elim (Bool-cases (leb (s.last_send_time + heartbeat_interval) u.now)) [
  | inl due ↦ rw due (longer s.sent h (ground arith))
  | inr early ↦ rw early h
]
  where
    longer :
        (sent : List ℕ)
        → Spaced s.last_send_time sent
        → s.last_send_time + heartbeat_interval ≤ u.now
        → Spaced u.now (u.now ∷ sent)
    longer [] p q = refl
    longer (x ∷ []) p q = (refl, omega arith, refl)
    longer (x ∷ y ∷ ys) p q = (refl, omega arith, (refl, p.1, p.2))

-- In any run of the service loop two heartbeats are at least 60 seconds apart.
pub run-Spaced :
    (s : Service) (us : List ServiceTurn)
    → Spaced s.last_send_time s.sent
    → Spaced (run s us).last_send_time (run s us).sent
run-Spaced s [] h = h
run-Spaced s (u ∷ us) h = run-Spaced (service_round s u.now u.poll u.later) us (round-Spaced s u h)
