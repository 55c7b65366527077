-- ===== src/Nodes/Tail.antt =====
-- Adding a node behind the last one, and counting the active ones.
use wtsl_app.Base.{
  ℕ, zero, suc, ◌+◌, ◌<◌, some, [], ◌∷◌, ◌++◌, ◌==◌, ◌≡◌, refl, ◌≢◌, ◌∙◌, sym, ap, arith,
  if◌then◌else◌, length, length-append, Bool-cases, inl, inr, not,
}
use wtsl_app.Nodes.{
  Ptr, null, WtslNode, cell, Heap, write, NodeList, Run, link_tail, add_wtsl_node_to_list_tail,
  count_loop, get_active_wtsl_node_count,
}
use wtsl_app.Nodes.Links.{
  Cells, Apart, Links, last_address, IsNodeList, eq_false, ne_of_false, load_lem, write_self,
  write-Links, last-Links, last_not_null,
}

last_address-append :
    (d : Ptr) (cells : Cells) (w : Ptr) (v : WtslNode) → last_address d (cells ++ (w, v) ∷ []) ≡ w
last_address-append d [] w v = refl
last_address-append d ((a, n) ∷ cells) w v = last_address-append a cells w v

link_tail-IsNodeList :
    (l : NodeList) (cells : Cells) (w : Ptr) (v : WtslNode)
    → IsNodeList l cells
    → w ≢ null
    → Apart w cells
    → (l' : NodeList) × (link_tail l w v ≡ Run.value l') × IsNodeList l' (cells ++ (w, v) ∷ [])
unfolding link_tail
link_tail-IsNodeList l [] w v wf ok apart = (
  record l {
    heap = write l.heap w (some (cell v null));
    head = w;
    tail = w;
    node_count = l.node_count + 1;
  },
  rw wf.links refl,
  record {
    links = (refl, ok, tt, (null, write_self l.heap w _, refl));
    tail_is_last = refl;
    count_is_length = omega (arith, wf.count_is_length);
  },
)
link_tail-IsNodeList l ((a, n) ∷ cells) w v wf ok apart =
    let (e, nn, fresh, rest) = wf.links in
    let h : Heap = write l.heap w (some (cell v null)) in
    let (m, found, linked) =
      last-Links h a n cells l.head w v
        (write-Links l.heap w _ l.head ((a, n) ∷ cells) apart wf.links) (write_self l.heap w _) ok
        apart in
    (
      record l {
        heap = write h (last_address a cells) (some (cell m w));
        tail = w;
        node_count = l.node_count + 1;
      },
      rw
          (
            eq_false l.head null (λ k. nn (sym e ∙ k)),
            wf.tail_is_last,
            load_lem h (last_address a cells) _ (last_not_null l.heap a n cells l.head wf.links)
                found,
          )
          refl,
      record {
        links = linked;
        tail_is_last = sym (last_address-append a cells w v);
        count_is_length = omega (arith, wf.count_is_length, length-append cells ((w, v) ∷ []));
      },
    )

-- A node that is added stands behind all others, if malloc gives a cell; otherwise the list stays
-- as it was and the caller learns it. No cell outside the list is read.
pub add_tail-IsNodeList :
    (l : NodeList) (cells : Cells) (w : Ptr) (v : WtslNode)
    → IsNodeList l cells
    → Apart w cells
    → (l' : NodeList) × (add_wtsl_node_to_list_tail l w v ≡ Run.value (not (w == null), l'))
      × IsNodeList l' (if w == null then cells else cells ++ (w, v) ∷ [])
unfolding add_wtsl_node_to_list_tail
add_tail-IsNodeList l cells w v wf apart = elim (Bool-cases (w == null)) [
  | inl is ↦ (l, rw is refl, rw is wf)
  | inr is ↦
      let (l', e, wf') = link_tail-IsNodeList l cells w v wf (ne_of_false w null is) apart in
      (l', rw (is, e) refl, rw is wf')
]

unfoldable pub active_count : Cells → ℕ
active_count [] = 0
active_count ((a, n) ∷ cells) = if n.active then suc (active_count cells) else active_count cells

count_loop_lem :
    (k : ℕ) (h : Heap) (p : Ptr) (c : ℕ) (cells : Cells)
    → Links h p cells
    → length cells < k
    → count_loop k h p c ≡ Run.value (active_count cells + c)
unfolding count_loop active_count
count_loop_lem zero h p c cells ln lt = absurd (omega arith)
count_loop_lem (suc k) h p c [] e lt = rw e (ap Run.value (omega arith))
count_loop_lem (suc k) h p c ((a, n) ∷ cells) (e, nn, fresh, (q, at, rest)) lt =
    rw (e, eq_false a null nn, at)
      (elim (Bool-cases n.active) [
        | inl is ↦
            rw is
              (count_loop_lem k h q (c + 1) cells rest (omega arith) ∙ ap Run.value (omega arith))
        | inr is ↦ rw is (count_loop_lem k h q c cells rest (omega arith))
      ])

-- The count of the active nodes ends, reads no cell outside the list, and counts each of them once.
pub get_active-active_count :
    (l : NodeList) (cells : Cells)
    → IsNodeList l cells
    → get_active_wtsl_node_count l ≡ Run.value (active_count cells)
unfolding get_active_wtsl_node_count
get_active-active_count l cells wf =
    count_loop_lem (l.node_count + 1) l.heap l.head 0 cells wf.links
      (omega (arith, wf.count_is_length))
    ∙ ap Run.value (omega arith)
