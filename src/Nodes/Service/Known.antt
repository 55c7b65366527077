-- ===== src/Nodes/Service/Known.antt =====
-- What a heartbeat does to the known nodes, when their ids are their positions.
use mathlib.Core.Path.{subst}
use mathlib.Core.List.{append_assoc}
use wtsl_app.Base.{
  ℕ, suc, ◌+◌, Bool, true, false, not, Option, none, some, List, [], ◌∷◌, ◌++◌, ◌≡◌, refl, ◌≢◌, ◌∙◌,
  sym, ap, arith, if◌then◌else◌, length, length-append, ==_refl, Bool-cases, Option-cases, inl, inr,
}
use wtsl_app.Nodes.{
  Ptr, null, NodeInfo, WtslNode, cell, Heap, NodeList, Run, ◌>>=◌, find_wtsl_node_by_id, set_node,
}
use wtsl_app.Nodes.Links.{Cells, Links, IsNodeList, eq_false}
use wtsl_app.Nodes.Search.{
  first, change_first, find-first, has_id, is_found, unfound_unchanged, set_node-IsNodeList,
}
use wtsl_app.Nodes.Service.{
  id_loop, known_mac, known_addr, is_node_not_exist, refresh, update_heartbeat,
}

-- The ids are the positions, from s on.
unfoldable pub Numbered : ℕ → Cells → Type 0
Numbered s [] = Unit
Numbered s ((a, n) ∷ cells) = (n.id ≡ s) × Numbered (suc s) cells

unfoldable pub any_node : (WtslNode → Bool) → Cells → Bool
any_node test [] = false
any_node test ((a, n) ∷ cells) = if test n then true else any_node test cells

bools_differ : true ≢ false
bools_differ e = cc

first-append :
    (test : WtslNode → Bool) (pre : Cells) (a : Ptr) (n : WtslNode) (rest : Cells)
    → any_node test pre ≡ false
    → test n ≡ true
    → first test (pre ++ (a, n) ∷ rest) ≡ some a
unfolding first any_node
first-append test [] a n rest h e = rw e refl
first-append test ((b, m) ∷ pre) a n rest h e = elim (Bool-cases (test m)) [
  | inl is ↦ absurd (bools_differ (rw is at h))
  | inr is ↦ rw is (first-append test pre a n rest (rw is at h) e)
]

Numbered-id :
    (s : ℕ) (pre : Cells) (a : Ptr) (n : WtslNode) (rest : Cells)
    → Numbered s (pre ++ (a, n) ∷ rest)
    → (n.id ≡ s + length pre) × (any_node (has_id (s + length pre)) pre ≡ false)
unfolding Numbered any_node
Numbered-id s [] a n rest (e, num) = (omega arith, refl)
Numbered-id s ((b, m) ∷ pre) a n rest (e, num) =
    let (at, ne) = Numbered-id (suc s) pre a n rest num in
    let shift : suc s + length pre ≡ s + suc (length pre) = omega arith in
    (omega arith, rw (e, eq_false s (s + suc (length pre)) (omega arith)) (rw shift at ne))

Links-at :
    (h : Heap) (p : Ptr) (pre : Cells) (a : Ptr) (n : WtslNode) (rest : Cells)
    → Links h p (pre ++ (a, n) ∷ rest)
    → (q : Ptr) × (a ≢ null) × (h a ≡ some (cell n q))
Links-at h p [] a n rest (e, nn, fresh, (q, at, r)) = (q, nn, at)
Links-at h p ((b, m) ∷ pre) a n rest (e, nn, fresh, (q, at, r)) = Links-at h q pre a n rest r

-- The node at a position is the one that is found by it as an id.
find_at :
    (l : NodeList) (pre : Cells) (a : Ptr) (n : WtslNode) (rest : Cells)
    → IsNodeList l (pre ++ (a, n) ∷ rest)
    → Numbered 0 (pre ++ (a, n) ∷ rest)
    → find_wtsl_node_by_id l (length pre) ≡ Run.value (some a)
unfolding find_wtsl_node_by_id
find_at l pre a n rest wf num =
    let (at, ne) = Numbered-id 0 pre a n rest num in
    let zero_add : 0 + length pre ≡ length pre = omega arith in
    find-first (has_id (length pre)) l (pre ++ (a, n) ∷ rest) wf
    ∙ ap Run.value (
        first-append (has_id (length pre)) pre a n rest (rw zero_add at ne)
          (rw (at, zero_add) (==_refl (length pre))))

module _ {A : Type 0} (test : WtslNode → Bool) (hit : Ptr → Run A) (miss : Run A) where
  abbrev pub at_first : Option Ptr → Run A
  at_first none = miss
  at_first (some p) = hit p

  id_loop_lem :
      (l : NodeList) (pre rest : Cells)
      → IsNodeList l (pre ++ rest)
      → Numbered 0 (pre ++ rest)
      → id_loop test hit miss (length rest) (length pre) l ≡ at_first (first test rest)
  unfolding id_loop first
  id_loop_lem l pre [] wf num = refl
  id_loop_lem l pre ((a, n) ∷ rest) wf num =
      let (q, nn, at) = Links-at l.heap l.head pre a n rest wf.links in
      let next =
        id_loop_lem l (pre ++ (a, n) ∷ []) rest
          (subst (IsNodeList l) (sym (append_assoc pre ((a, n) ∷ []) rest)) wf)
          (subst (Numbered 0) (sym (append_assoc pre ((a, n) ∷ []) rest)) num) in
      rw (find_at l pre a n rest wf num, eq_false a null nn, at)
        (elim (Bool-cases (test n)) [
          | inl is ↦ rw is refl
          | inr is ↦ rw is (
              ap (λ i. id_loop test hit miss (length rest) i l)
                (sym (length-append pre ((a, n) ∷ [])))
              ∙ next)
        ])

pub any_node-first :
    (test : WtslNode → Bool) (cells : Cells) → any_node test cells ≡ is_found (first test cells)
unfolding any_node first
any_node-first test [] = refl
any_node-first test ((a, n) ∷ cells) = elim (Bool-cases (test n)) [
  | inl is ↦ rw is refl
  | inr is ↦ rw is (any_node-first test cells)
]

loop-first :
    {A : Type 0} (test : WtslNode → Bool) (hit : Ptr → Run A) (miss : Run A) (l : NodeList)
    (cells : Cells)
    → IsNodeList l cells
    → Numbered 0 cells
    → id_loop test hit miss l.node_count 0 l ≡ at_first test hit miss (first test cells)
loop-first test hit miss l cells wf num =
    ap (λ k. id_loop test hit miss k 0 l) wf.count_is_length
    ∙ id_loop_lem test hit miss l [] cells wf num

pub not_exist-any_node :
    (l : NodeList) (cells : Cells) (info : NodeInfo)
    → IsNodeList l cells
    → Numbered 0 cells
    → is_node_not_exist (some l) info ≡ Run.value (not (any_node (known_mac info) cells))
unfolding is_node_not_exist
not_exist-any_node l cells info wf num =
    loop-first (known_mac info) (λ p. Run.value false) (Run.value true) l cells wf num
    ∙ rw (any_node-first (known_mac info) cells)
        (elim (Option-cases (first (known_mac info) cells)) [
          | inl e ↦ rw e refl
          | inr (p, e) ↦ rw e refl
        ])

pub update_heartbeat-change_first :
    (l : NodeList) (cells : Cells) (addr : List ℕ) (info : NodeInfo) (now : ℕ)
    → IsNodeList l cells
    → Numbered 0 cells
    → (l' : NodeList) × (update_heartbeat (some l) addr info now ≡ Run.value (some l'))
      × IsNodeList l' (change_first (known_addr addr) (refresh now info) cells)
unfolding update_heartbeat
update_heartbeat-change_first l cells addr info now wf num =
    let loop =
      loop-first (known_addr addr) (λ p. set_node l p (refresh now info)) (Run.value l) l cells wf
        num in
    elim (Option-cases (first (known_addr addr) cells)) [
      | inl e ↦ (
        l,
        ap (λ r. r >>= λ l'. Run.value (some l'))
            (loop
              ∙ ap (at_first (known_addr addr) (λ p. set_node l p (refresh now info)) (Run.value l))
                  e),
        rw (unfound_unchanged (known_addr addr) (refresh now info) cells e) wf,
      )
      | inr (p, e) ↦
          let (l', run, wf') =
            set_node-IsNodeList (known_addr addr) (refresh now info) l p cells wf e in
          (
            l',
            ap (λ r. r >>= λ l'. Run.value (some l'))
                (loop
                  ∙ (ap
                        (at_first (known_addr addr) (λ p. set_node l p (refresh now info))
                          (Run.value l))
                        e
                      ∙ run)),
            wf',
          )
    ]

pub update_heartbeat-unchanged :
    (l : NodeList) (cells : Cells) (addr : List ℕ) (info : NodeInfo) (now : ℕ)
    → IsNodeList l cells
    → Numbered 0 cells
    → first (known_addr addr) cells ≡ none
    → update_heartbeat (some l) addr info now ≡ Run.value (some l)
unfolding update_heartbeat
update_heartbeat-unchanged l cells addr info now wf num e =
    let hit : Ptr → Run NodeList = λ p. set_node l p (refresh now info) in
    ap (λ r. r >>= λ l'. Run.value (some l'))
      (loop-first (known_addr addr) hit (Run.value l) l cells wf num
        ∙ ap (at_first (known_addr addr) hit (Run.value l)) e)
