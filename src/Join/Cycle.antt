-- ===== src/Join/Cycle.antt =====
-- Which addresses are tried.
use wtsl_app.Base.{
  ℕ, zero, suc, ◌+◌, ◌%◌, ◌<◌, Bool, true, false, Option, none, some, List, [], ◌∷◌, ◌≡◌, refl, ◌∙◌,
  ap, arith, replicate,
}
use wtsl_app.Join.{Turn, next_idx, join_turn, tried, wtsl_core_splink_auto_join_net}

abbrev AllBelow : ℕ → List ℕ → Type 0
AllBelow n [] = Unit
AllBelow n (i ∷ rest) = (i < n) × AllBelow n rest

next_below : (i : ℕ) → i < 3 → next_idx i < 3
next_below i lt = ground arith

abbrev turn_of : Bool → Bool → Turn
turn_of linked flag = record { waited_linked = linked; auto_join_net_flag = flag }

abbrev IsBelow : Option ℕ → Type 0
IsBelow none = Unit
IsBelow (some i) = i < 3

turn_of-IsBelow :
    (idx : ℕ) (linked flag : Bool)
    → idx < 3
    → IsBelow (join_turn idx (turn_of linked flag)).0
      × ((join_turn idx (turn_of linked flag)).1 < 3)
unfolding join_turn
turn_of-IsBelow idx true true lt = (omega arith, omega arith)
turn_of-IsBelow idx true false lt = (tt, omega arith)
turn_of-IsBelow idx false true lt = (lt, next_below idx lt)
turn_of-IsBelow idx false false lt = (tt, lt)

tried-AllBelow :
    (o : Option ℕ) (rest : List ℕ) → IsBelow o → AllBelow 3 rest → AllBelow 3 (tried o rest)
tried-AllBelow none rest h k = k
tried-AllBelow (some i) rest h k = (h, k)

-- Whatever the waits find, only the three stored addresses are tried.
join-AllBelow :
    (turns : List Turn) (idx : ℕ) → idx < 3 → AllBelow 3 (wtsl_core_splink_auto_join_net idx turns)
unfolding wtsl_core_splink_auto_join_net
join-AllBelow [] idx lt = tt
join-AllBelow (t ∷ turns) idx lt =
    let (now, next) = turn_of-IsBelow idx t.waited_linked t.auto_join_net_flag lt in
    tried-AllBelow (join_turn idx t).0 (wtsl_core_splink_auto_join_net (join_turn idx t).1 turns)
      now (join-AllBelow turns (join_turn idx t).1 next)

-- A turn without a link and with the flag set.
abbrev free_turn : Turn
free_turn = record { waited_linked = false; auto_join_net_flag = true }

abbrev cycle : ℕ → ℕ → List ℕ
cycle i zero = []
cycle i (suc n) = i % 3 ∷ cycle (i + 1) n

next-mod : (i : ℕ) → next_idx (i % 3) ≡ (i + 1) % 3
next-mod i = ground arith

-- Without a link the addresses are tried in turn, without end.
join-cycle : (n i : ℕ) → wtsl_core_splink_auto_join_net (i % 3) (replicate n free_turn) ≡ cycle i n
unfolding wtsl_core_splink_auto_join_net
join-cycle zero i = refl
join-cycle (suc n) i =
    ap (λ l. i % 3 ∷ l)
      (ap (λ k. wtsl_core_splink_auto_join_net k (replicate n free_turn)) (next-mod i)
        ∙ join-cycle n (i + 1))
