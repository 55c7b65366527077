-- ===== src/Nodes/Service/Active.antt =====
-- Which of the known nodes count as active.
use wtsl_app.Base.{
  ℕ, suc, Bool, true, some, List, [], ◌∷◌, ◌++◌, ◌==◌, ◌≡◌, refl, ◌∙◌, sym, ap, length, Bool-cases,
  inl, inr,
}
use wtsl_app.Nodes.{Ptr, null, NodeInfo, WtslNode, NodeList, Run, get_active_wtsl_node_count}
use wtsl_app.Nodes.Links.{Cells, IsNodeList}
use wtsl_app.Nodes.Search.{change_first}
use wtsl_app.Nodes.Tail.{active_count, get_active-active_count}
use wtsl_app.Nodes.Service.{refresh, known_mac, known_addr}
use wtsl_app.Nodes.Service.Known.{Numbered, any_node}
use wtsl_app.Nodes.Service.Heard.{
  Heartbeat, heard, heard_all, hear_all, HaveMemory, hear_all-heard_all,
}

unfoldable pub AllActive : Cells → Type 0
AllActive [] = Unit
AllActive ((a, n) ∷ cells) = (n.active ≡ true) × AllActive cells

AllActive-change_first :
    (test : WtslNode → Bool) (now : ℕ) (info : NodeInfo) (cells : Cells)
    → AllActive cells
    → AllActive (change_first test (refresh now info) cells)
unfolding AllActive change_first
AllActive-change_first test now info [] act = tt
AllActive-change_first test now info ((a, n) ∷ cells) (e, act) = elim (Bool-cases (test n)) [
  | inl is ↦ rw is (refl, act)
  | inr is ↦ rw is (e, AllActive-change_first test now info cells act)
]

AllActive-append :
    (cells : Cells) (w : Ptr) (v : WtslNode)
    → AllActive cells
    → v.active ≡ true
    → AllActive (cells ++ (w, v) ∷ [])
unfolding AllActive
AllActive-append [] w v act e = (e, tt)
AllActive-append ((a, n) ∷ cells) w v (at, act) e = (at, AllActive-append cells w v act e)

heard-AllActive : (m : Heartbeat) (cells : Cells) → AllActive cells → AllActive (heard m cells)
unfolding heard
heard-AllActive m cells act = elim (Bool-cases (any_node (known_mac m.info) cells)) [
  | inl is ↦ rw is (AllActive-change_first (known_addr m.addr) m.s.now m.info cells act)
  | inr is ↦ rw is (elim (Bool-cases (m.s.fresh == null)) [
    | inl w ↦ rw w act
    | inr w ↦ rw w (AllActive-append cells m.s.fresh _ act refl)
  ])
]

heard_all-AllActive :
    (ms : List Heartbeat) (cells : Cells) → AllActive cells → AllActive (heard_all ms cells)
unfolding heard_all
heard_all-AllActive [] cells act = act
heard_all-AllActive (m ∷ ms) cells act =
    heard_all-AllActive ms (heard m cells) (heard-AllActive m cells act)

active_count-length : (cells : Cells) → AllActive cells → active_count cells ≡ length cells
unfolding AllActive active_count
active_count-length [] act = refl
active_count-length ((a, n) ∷ cells) (e, act) = rw e (ap suc (active_count-length cells act))

-- The list after heartbeats that came to these cells.
pub record IsHeard (ms : List Heartbeat) (cells : Cells) (l' : NodeList) : Type 0 where
  pub shape : IsNodeList l' (heard_all ms cells)
  pub numbered : Numbered 0 (heard_all ms cells)
  pub all_active : get_active_wtsl_node_count l' ≡ Run.value l'.node_count

-- From any list of active nodes whose ids are their positions, such as the empty one or the node itself,
-- any sequence of heartbeats with memory for what is added ends without a fault. The ids stay the
-- positions, and every known node counts as active whatever the times of its heartbeats: none is
-- ever marked offline.
pub hear_all-IsHeard :
    (ms : List Heartbeat) (l : NodeList) (cells : Cells)
    → IsNodeList l cells
    → Numbered 0 cells
    → AllActive cells
    → HaveMemory ms cells
    → (l' : NodeList) × (hear_all (some l) ms ≡ Run.value (some l')) × IsHeard ms cells l'
hear_all-IsHeard ms l cells wf num act mem =
    let (l', run, wf', num') = hear_all-heard_all ms l cells wf num mem in
    (
      l',
      run,
      record {
        shape = wf';
        numbered = num';
        all_active =
            get_active-active_count l' (heard_all ms cells) wf'
            ∙ ap Run.value (
                active_count-length (heard_all ms cells) (heard_all-AllActive ms cells act)
                ∙ sym wf'.count_is_length);
      },
    )
