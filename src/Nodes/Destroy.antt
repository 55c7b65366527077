-- ===== src/Nodes/Destroy.antt =====
-- Destroying the list of known nodes.
use wtsl_app.Base.{ℕ, zero, suc, ◌+◌, ◌<◌, none, [], ◌∷◌, ◌≡◌, refl, ◌∙◌, arith, length}
use wtsl_app.Nodes.{Ptr, null, Heap, write, NodeList, Run, destroy_loop, destroy_wtsl_node_list}
use wtsl_app.Nodes.Links.{
  Cells, Apart, Links, IsNodeList, eq_false, write_self, write_other, write-Links,
}

abbrev pub AllFreed : Heap → Cells → Type 0
AllFreed h [] = Unit
AllFreed h ((a, n) ∷ cells) = (h a ≡ none) × AllFreed h cells

-- The cells of the list are freed and no other cell is touched.
pub record IsCleared (h h' : Heap) (cells : Cells) : Type 0 where
  pub freed : AllFreed h' cells
  pub kept : (x : Ptr) → Apart x cells → h' x ≡ h x

destroy_loop_lem :
    (k : ℕ) (h : Heap) (p : Ptr) (cells : Cells)
    → Links h p cells
    → length cells < k
    → (h' : Heap) × (destroy_loop k h p ≡ Run.value h') × IsCleared h h' cells
unfolding destroy_loop
destroy_loop_lem zero h p cells ln lt = absurd (omega arith)
destroy_loop_lem (suc k) h p [] e lt = (h, rw e refl, record { freed = tt; kept = λ x apart. refl })
destroy_loop_lem (suc k) h p ((a, n) ∷ cells) (e, nn, fresh, (q, at, rest)) lt =
    let (h', run, c) =
      destroy_loop_lem k (write h a none) q cells (write-Links h a none q cells fresh rest)
        (omega arith) in
    (
      h',
      rw (e, eq_false a null nn, at) run,
      record {
        freed = (c.kept a fresh ∙ write_self h a none, c.freed);
        kept = λ x apart. c.kept x apart.1 ∙ write_other h a x none (λ k. apart.0 k);
      },
    )

-- Destroying a list ends, frees every cell of it once, and touches no other cell.
pub destroy-IsCleared :
    (l : NodeList) (cells : Cells)
    → IsNodeList l cells
    → (h' : Heap) × (destroy_wtsl_node_list l ≡ Run.value h') × IsCleared l.heap h' cells
unfolding destroy_wtsl_node_list
destroy-IsCleared l cells wf =
    destroy_loop_lem (l.node_count + 1) l.heap l.head cells wf.links
      (omega (arith, wf.count_is_length))
