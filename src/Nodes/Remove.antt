-- ===== src/Nodes/Remove.antt =====
-- Deleting a node by its id.
use wtsl_app.Base.{
  ℕ, zero, suc, ◌+◌, ◌-◌, ◌<◌, Bool, true, false, Option, none, some, [], ◌∷◌, ◌==◌, ◌≡◌, refl, ◌∙◌,
  sym, ap, arith, if◌then◌else◌, length, Bool-cases, inl, inr,
}
use wtsl_app.Nodes.{
  Ptr, null, WtslNode, cell, Heap, write, NodeList, Run, ◌>>=◌, delete_loop, unlink, delete_located,
  delete_wtsl_node_by_id,
}
use wtsl_app.Nodes.Links.{Cells, Links, IsNodeList, eq_false, write_self, write-Links}
use wtsl_app.Nodes.Cut.{without, locate, Cut, last-first_cut, delete-Cut}

delete_loop_lem :
    (id k : ℕ) (h : Heap) (prev p : Ptr) (cells : Cells)
    → Links h p cells
    → length cells < k
    → delete_loop k h id prev p ≡ Run.value (locate id prev cells)
unfolding delete_loop locate
delete_loop_lem id zero h prev p cells ln lt = absurd (omega arith)
delete_loop_lem id (suc k) h prev p [] e lt = rw e refl
delete_loop_lem id (suc k) h prev p ((a, n) ∷ cells) (e, nn, fresh, (q, at, rest)) lt =
    rw (e, eq_false a null nn, at)
      (elim (Bool-cases (n.id == id)) [
        | inl is ↦ rw is refl
        | inr is ↦ rw is (delete_loop_lem id k h a q cells rest (omega arith))
      ])

abbrev pub is_located : Option (Ptr × Ptr) → Bool
is_located none = false
is_located (some p) = true

-- The located cell is no longer on the heap.
abbrev pub Freed : Heap → Option (Ptr × Ptr) → Type 0
Freed h none = Unit
Freed h (some (prev, p)) = h p ≡ none

-- The outcome of a deletion in a list with these cells.
pub record IsDeleted (id : ℕ) (cells : Cells) (done : Run (Bool × NodeList)) (l' : NodeList)
    : Type 0 where
  pub returns : done ≡ Run.value (is_located (locate id null cells), l')
  pub shape : IsNodeList l' (without id cells)
  pub freed : Freed l'.heap (locate id null cells)

unlink-Cut :
    (l : NodeList) (a : Ptr) (n : WtslNode) (cells cells' : Cells) (o : Option (Ptr × Ptr))
    → IsNodeList l ((a, n) ∷ cells)
    → Cut l.heap l.head a n cells cells' o
    → (l' : NodeList) × (delete_located l o ≡ Run.value (is_located o, l'))
      × IsNodeList l' ((a, n) ∷ cells')
      × Freed l'.heap o
unfolding unlink
unlink-Cut l a n cells cells' none wf c = (l, refl, rw c wf, tt)
unlink-Cut l a n cells cells' (some (prev, p)) wf c =
    let h : Heap = write (write l.heap prev (some (cell c.before c.after))) p none in
    (
      record {
        heap = h;
        head = l.head;
        tail = if l.tail == p then prev else l.tail;
        node_count = l.node_count - 1;
      },
      rw (eq_false p null c.p_ok, c.at_p, eq_false prev null c.prev_ok, c.at_prev) refl,
      record {
        links = c.linked;
        tail_is_last = rw wf.tail_is_last (sym c.last);
        count_is_length = omega (arith, wf.count_is_length, c.one_less);
      },
      write_self (write l.heap prev (some (cell c.before c.after))) p none,
    )

unlink-first :
    (l : NodeList) (a : Ptr) (n : WtslNode) (cells : Cells)
    → IsNodeList l ((a, n) ∷ cells)
    → (l' : NodeList) × (delete_located l (some (null, a)) ≡ Run.value (true, l'))
      × IsNodeList l' cells
      × (l'.heap a ≡ none)
unfolding unlink
unlink-first l a n cells wf =
    let (e, nn, fresh, (q, at, rest)) = wf.links in
    (
      record {
        heap = write l.heap a none;
        head = q;
        tail = if l.tail == a then null else l.tail;
        node_count = l.node_count - 1;
      },
      rw (eq_false a null nn, at) refl,
      record {
        links = write-Links l.heap a none q cells fresh rest;
        tail_is_last = rw wf.tail_is_last (sym (last-first_cut a null cells fresh));
        count_is_length = omega (arith, wf.count_is_length);
      },
      write_self l.heap a none,
    )

-- delete_located on what the search finds in a list that is not empty.
located-IsDeleted :
    (id : ℕ) (l : NodeList) (a : Ptr) (n : WtslNode) (cells : Cells)
    → IsNodeList l ((a, n) ∷ cells)
    → (l' : NodeList) × IsDeleted id
        ((a, n) ∷ cells)
        (delete_located l (locate id null ((a, n) ∷ cells)))
        l'
unfolding locate without
located-IsDeleted id l a n cells wf = elim (Bool-cases (n.id == id)) [
  | inl is ↦
      let (l', e, wf', gone) = unlink-first l a n cells wf in
      (l', record { returns = rw is e; shape = rw is wf'; freed = rw is gone })
  | inr is ↦
      let (l', e, wf', gone) =
        unlink-Cut l a n cells (without id cells) (locate id a cells) wf
          (delete-Cut id l.heap l.head a n cells wf.links) in
      (l', record { returns = rw is e; shape = rw is wf'; freed = rw is gone })
]

empty-IsDeleted :
    (id : ℕ) (l : NodeList) → IsNodeList l [] → IsDeleted id [] (Run.value (false, l)) l
unfolding locate without
empty-IsDeleted id l wf = record { returns = refl; shape = wf; freed = tt }

-- A deletion ends and reads no cell outside the list. The first node with the id is taken out, with
-- its cell freed and the order of the others kept, the tail is the new last node and the count one
-- less; without such a node the list stays as it was and the caller learns it.
pub delete-without :
    (id : ℕ) (l : NodeList) (cells : Cells)
    → IsNodeList l cells
    → (l' : NodeList) × IsDeleted id cells (delete_wtsl_node_by_id l id) l'
unfolding delete_wtsl_node_by_id
delete-without id l [] wf =
    let d = empty-IsDeleted id l wf in
    (
      l,
      record {
        returns =
            ap
              (λ p.
                if p == null
                then Run.value (false, l)
                else delete_loop (l.node_count + 1) l.heap id null p >>= delete_located l)
              wf.links
            ∙ d.returns;
        shape = d.shape;
        freed = d.freed;
      },
    )
delete-without id l ((a, n) ∷ cells) wf =
    let (e, nn, fresh, rest) = wf.links in
    let found =
      delete_loop_lem id (l.node_count + 1) l.heap null l.head ((a, n) ∷ cells) wf.links
        (omega (arith, wf.count_is_length)) in
    let (l', d) = located-IsDeleted id l a n cells wf in
    (
      l',
      record {
        returns =
            rw (eq_false l.head null (λ k. nn (sym e ∙ k)))
              (ap (λ r. r >>= delete_located l) found ∙ d.returns);
        shape = d.shape;
        freed = d.freed;
      },
    )
