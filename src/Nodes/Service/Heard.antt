-- ===== src/Nodes/Service/Heard.antt =====
-- What received heartbeats make of the known nodes.
use wtsl_app.Base.{
  ℕ, suc, ◌+◌, Bool, true, false, not, Option, none, some, List, [], ◌∷◌, ◌++◌, ◌==◌, ◌≡◌, refl,
  ◌∙◌, sym, ap, arith, if◌then◌else◌, length, Bool-cases, inl, inr,
}
use wtsl_app.Nodes.{Ptr, null, NodeInfo, WtslNode, NodeList, Run, ◌>>=◌, add_wtsl_node_to_list_tail}
use wtsl_app.Nodes.Links.{Cells, Apart, IsNodeList}
use wtsl_app.Nodes.Search.{change_first, is_found}
use wtsl_app.Nodes.Tail.{add_tail-IsNodeList}
use wtsl_app.Nodes.Service.{
  Surroundings, refresh, new_node, parse_data_heartbeat, known_mac, known_addr, handle,
}
use wtsl_app.Nodes.Service.Known.{
  Numbered, any_node, any_node-first, not_exist-any_node, update_heartbeat-change_first,
  update_heartbeat-unchanged,
}

pub record Heartbeat : Type 0 where
  pub addr : List ℕ
  pub info : NodeInfo
  pub s : Surroundings

-- The node behind all others, if there is memory for its cell.
abbrev pub with_new : Heartbeat → Cells → Cells
with_new m cells =
    if m.s.fresh == null
    then cells
    else cells ++ (m.s.fresh, new_node (length cells) m.addr m.info m.s.now) ∷ []

-- A node with an unknown MAC address is added; the heartbeat of a known one refreshes the first node
-- at the sender's socket address.
unfoldable pub heard : Heartbeat → Cells → Cells
heard m cells =
    if any_node (known_mac m.info) cells
    then change_first (known_addr m.addr) (refresh m.s.now m.info) cells
    else with_new m cells

Numbered-change_first :
    (test : WtslNode → Bool) (now : ℕ) (info : NodeInfo) (s : ℕ) (cells : Cells)
    → Numbered s cells
    → Numbered s (change_first test (refresh now info) cells)
unfolding Numbered change_first
Numbered-change_first test now info s [] num = tt
Numbered-change_first test now info s ((a, n) ∷ cells) (e, num) = elim (Bool-cases (test n)) [
  | inl is ↦ rw is (e, num)
  | inr is ↦ rw is (e, Numbered-change_first test now info (suc s) cells num)
]

Numbered-append :
    (s : ℕ) (cells : Cells) (w : Ptr) (v : WtslNode)
    → Numbered s cells
    → v.id ≡ s + length cells
    → Numbered s (cells ++ (w, v) ∷ [])
unfolding Numbered
Numbered-append s [] w v num e = (omega (arith, e), tt)
Numbered-append s ((a, n) ∷ cells) w v (at, num) e =
    (at, Numbered-append (suc s) cells w v num (omega (arith, e)))

pub heard-Numbered : (m : Heartbeat) (cells : Cells) → Numbered 0 cells → Numbered 0 (heard m cells)
unfolding heard
heard-Numbered m cells num = elim (Bool-cases (any_node (known_mac m.info) cells)) [
  | inl is ↦ rw is (Numbered-change_first (known_addr m.addr) m.s.now m.info 0 cells num)
  | inr is ↦ rw is (elim (Bool-cases (m.s.fresh == null)) [
    | inl nn ↦ rw nn num
    | inr w ↦ rw w (Numbered-append 0 cells m.s.fresh _ num (omega arith))
  ])
]

unfoldable pub HasNodeMemory : Heartbeat → Type 0
HasNodeMemory m = (m.s.node_memory ≡ true) × (m.s.interface_memory ≡ true)

-- A received heartbeat ends without a fault and makes of a list whose ids are its positions one of the
-- same kind, with the nodes of `heard`. create_new_wtsl_node must get its memory, and the cell that
-- malloc may give is not in use.
pub heartbeat-heard :
    (l : NodeList) (cells : Cells) (m : Heartbeat)
    → IsNodeList l cells
    → Numbered 0 cells
    → Apart m.s.fresh cells
    → HasNodeMemory m
    → (l' : NodeList) × (parse_data_heartbeat (some l) m.addr m.info m.s ≡ Run.value (some l'))
      × IsNodeList l' (heard m cells)
      × Numbered 0 (heard m cells)
unfolding parse_data_heartbeat heard HasNodeMemory
heartbeat-heard l cells m wf num apart (mem, iface) =
    let known = not_exist-any_node l cells m.info wf num in
    elim (Bool-cases (any_node (known_mac m.info) cells)) [
      | inl is ↦
          let (l', run, wf') = update_heartbeat-change_first l cells m.addr m.info m.s.now wf num in
          (
            l',
            ap (λ r. r >>= handle (some l) m.addr m.info m.s)
                  (known ∙ ap (λ b. Run.value (not b)) is)
                ∙ run,
            rw is wf',
            heard-Numbered m cells num,
          )
      | inr is ↦
          let (l', run, wf') =
            add_tail-IsNodeList l cells m.s.fresh (new_node (length cells) m.addr m.info m.s.now) wf
              apart in
          (
            l',
            ap (λ r. r >>= handle (some l) m.addr m.info m.s)
                  (known ∙ ap (λ b. Run.value (not b)) is)
                ∙ rw (mem, iface)
                    (ap (λ r. r >>= λ x. Run.value (some x.1))
                      (ap
                          (λ k.
                            add_wtsl_node_to_list_tail l m.s.fresh
                              (new_node k m.addr m.info m.s.now))
                          wf.count_is_length
                        ∙ run)),
            rw is wf',
            heard-Numbered m cells num,
          )
    ]

none_of_any : (o : Option Ptr) → is_found o ≡ false → o ≡ none
none_of_any none e = refl
none_of_any (some p) e = cc

-- A heartbeat with a known MAC address from a socket address that no known node has is lost: the list
-- and every node in it stay as they were, and no node is added.
pub known_mac_elsewhere-unchanged :
    (l : NodeList) (cells : Cells) (addr : List ℕ) (info : NodeInfo) (s : Surroundings)
    → IsNodeList l cells
    → Numbered 0 cells
    → any_node (known_mac info) cells ≡ true
    → any_node (known_addr addr) cells ≡ false
    → parse_data_heartbeat (some l) addr info s ≡ Run.value (some l)
unfolding parse_data_heartbeat
known_mac_elsewhere-unchanged l cells addr info s wf num known elsewhere =
    ap (λ r. r >>= handle (some l) addr info s)
      (not_exist-any_node l cells info wf num ∙ ap (λ b. Run.value (not b)) known)
    ∙ update_heartbeat-unchanged l cells addr info s.now wf num
        (none_of_any _ (sym (any_node-first (known_addr addr) cells) ∙ elsewhere))

-- The heartbeats in the order in which recv_thread takes them.
pub hear_all : Option NodeList → List Heartbeat → Run (Option NodeList)
unfolding parse_data_heartbeat
hear_all list [] = Run.value list
hear_all list (m ∷ ms) = parse_data_heartbeat list m.addr m.info m.s >>= λ list'. hear_all list' ms

unfoldable pub heard_all : List Heartbeat → Cells → Cells
unfolding heard
heard_all [] cells = cells
heard_all (m ∷ ms) cells = heard_all ms (heard m cells)

-- malloc gives the nodes memory, and the cells that it gives are not in use.
unfoldable pub HaveMemory : List Heartbeat → Cells → Type 0
unfolding heard HasNodeMemory
HaveMemory [] cells = Unit
HaveMemory (m ∷ ms) cells = HasNodeMemory m × Apart m.s.fresh cells × HaveMemory ms (heard m cells)

pub hear_all-heard_all :
    (ms : List Heartbeat) (l : NodeList) (cells : Cells)
    → IsNodeList l cells
    → Numbered 0 cells
    → HaveMemory ms cells
    → (l' : NodeList) × (hear_all (some l) ms ≡ Run.value (some l'))
      × IsNodeList l' (heard_all ms cells)
      × Numbered 0 (heard_all ms cells)
unfolding hear_all heard_all HaveMemory
hear_all-heard_all [] l cells wf num mem = (l, refl, wf, num)
hear_all-heard_all (m ∷ ms) l cells wf num (mem, apart, mems) =
    let (l1, run1, wf1, num1) = heartbeat-heard l cells m wf num apart mem in
    let (l2, run2, wf2, num2) = hear_all-heard_all ms l1 (heard m cells) wf1 num1 mems in
    (l2, ap (λ r. r >>= λ list'. hear_all list' ms) run1 ∙ run2, wf2, num2)
