-- ===== src/Nodes/Search.antt =====
-- The four searches and the updates of the node that they find.
use wtsl_app.Base.{
  ℕ, zero, suc, ◌+◌, ◌<◌, Bool, true, false, Option, none, some, [], ◌∷◌, ◌≡◌, refl, ◌≢◌, ◌∙◌, sym,
  ap, arith, if◌then◌else◌, length, Bool-cases, Option-cases, inl, inr, ◌==◌, c_string,
}
use mathlib.Core.Path.{subst}
use wtsl_app.Nodes.{
  Ptr, null, WtslNode, cell, Heap, write, NodeList, Run, ◌>>=◌, find_loop, find, set_node, at_found,
  has_mac_prefix, update_wtsl_node_heartbeat, update_wtsl_node,
}
use wtsl_app.Nodes.Links.{
  Cells, Apart, Links, last_address, IsNodeList, eq_false, write_self, write_other, write-Links,
}

-- The address of the first node that passes the test.
unfoldable pub first : (WtslNode → Bool) → Cells → Option Ptr
first test [] = none
first test ((a, n) ∷ cells) = if test n then some a else first test cells

-- The first node that passes the test is changed.
unfoldable pub change_first : (WtslNode → Bool) → (WtslNode → WtslNode) → Cells → Cells
change_first test f [] = []
change_first test f ((a, n) ∷ cells) =
    if test n then (a, f n) ∷ cells else (a, n) ∷ change_first test f cells

abbrev pub is_found : Option Ptr → Bool
is_found none = false
is_found (some a) = true

find_loop_lem :
    (test : WtslNode → Bool) (k : ℕ) (h : Heap) (p : Ptr) (cells : Cells)
    → Links h p cells
    → length cells < k
    → find_loop test k h p ≡ Run.value (first test cells)
unfolding find_loop first
find_loop_lem test zero h p cells ln lt = absurd (omega arith)
find_loop_lem test (suc k) h p [] e lt = rw e refl
find_loop_lem test (suc k) h p ((a, n) ∷ cells) (e, nn, fresh, (q, at, rest)) lt =
    rw (e, eq_false a null nn, at)
      (elim (Bool-cases (test n)) [
        | inl is ↦ rw is refl
        | inr is ↦ rw is (find_loop_lem test k h q cells rest (omega arith))
      ])

pub find-first :
    (test : WtslNode → Bool) (l : NodeList) (cells : Cells)
    → IsNodeList l cells
    → find test l ≡ Run.value (first test cells)
find-first test l cells wf =
    find_loop_lem test (l.node_count + 1) l.heap l.head cells wf.links
      (omega (arith, wf.count_is_length))

Apart-change_first :
    (test : WtslNode → Bool) (f : WtslNode → WtslNode) (x : Ptr) (cells : Cells)
    → Apart x cells
    → Apart x (change_first test f cells)
unfolding change_first
Apart-change_first test f x [] apart = tt
Apart-change_first test f x ((a, n) ∷ cells) (ne, apart) = elim (Bool-cases (test n)) [
  | inl is ↦ rw is (ne, apart)
  | inr is ↦ rw is (ne, Apart-change_first test f x cells apart)
]

some_injective : {a b : Ptr} → some a ≡ some b → a ≡ b
some_injective e = cc

some_differs : (a : Ptr) → some a ≢ none
some_differs a e = cc

Apart-first :
    (test : WtslNode → Bool) (x p : Ptr) (cells : Cells)
    → Apart x cells
    → first test cells ≡ some p
    → x ≢ p
unfolding first
Apart-first test x p [] apart e = cc
Apart-first test x p ((a, n) ∷ cells) (ne, apart) e = elim (Bool-cases (test n)) [
  | inl is ↦ λ k. ne (k ∙ sym (some_injective (rw is at e)))
  | inr is ↦ Apart-first test x p cells apart (rw is at e)
]

-- With the node at w changed in place one reaches these cells.
abbrev Changed : (WtslNode → WtslNode) → Heap → Ptr → Ptr → Cells → Type 0
Changed f h p w cells =
    (m : WtslNode) × (q : Ptr) × (w ≢ null)
    × (h w ≡ some (cell m q))
    × Links (write h w (some (cell (f m) q))) p cells

change-Links :
    (test : WtslNode → Bool) (f : WtslNode → WtslNode) (h : Heap) (w p : Ptr) (cells : Cells)
    → Links h p cells
    → first test cells ≡ some w
    → Changed f h p w (change_first test f cells)
unfolding first change_first
change-Links test f h w p [] ln e = cc
change-Links test f h w p ((a, n) ∷ cells) (e, nn, fresh, (q, at, rest)) found =
    elim (Bool-cases (test n)) [
      | inl is ↦ rw is (
          subst (λ v. Changed f h p v ((a, f n) ∷ cells)) (some_injective (rw is at found))
            (
              n,
              q,
              nn,
              at,
              (e, nn, fresh, (q, write_self h a _, write-Links h a _ q cells fresh rest)),
            ))
      | inr is ↦
          let there : first test cells ≡ some w = rw is at found in
          let (m, r, ok, holds, linked) = change-Links test f h w q cells rest there in
          rw is (
            m,
            r,
            ok,
            holds,
            (
              e,
              nn,
              Apart-change_first test f a cells fresh,
              (q, write_other h w a _ (Apart-first test a w cells fresh there) ∙ at, linked),
            ),
          )
    ]

length-change_first :
    (test : WtslNode → Bool) (f : WtslNode → WtslNode) (cells : Cells)
    → length (change_first test f cells) ≡ length cells
unfolding change_first
length-change_first test f [] = refl
length-change_first test f ((a, n) ∷ cells) = elim (Bool-cases (test n)) [
  | inl is ↦ rw is refl
  | inr is ↦ rw is (ap suc (length-change_first test f cells))
]

last-change_first :
    (test : WtslNode → Bool) (f : WtslNode → WtslNode) (d : Ptr) (cells : Cells)
    → last_address d (change_first test f cells) ≡ last_address d cells
unfolding change_first
last-change_first test f d [] = refl
last-change_first test f d ((a, n) ∷ cells) = elim (Bool-cases (test n)) [
  | inl is ↦ rw is refl
  | inr is ↦ rw is (last-change_first test f a cells)
]

pub unfound_unchanged :
    (test : WtslNode → Bool) (f : WtslNode → WtslNode) (cells : Cells)
    → first test cells ≡ none
    → change_first test f cells ≡ cells
unfolding first change_first
unfound_unchanged test f [] e = refl
unfound_unchanged test f ((a, n) ∷ cells) e = elim (Bool-cases (test n)) [
  | inl is ↦ absurd (some_differs a (rw is at e))
  | inr is ↦ rw is (ap (λ c. (a, n) ∷ c) (unfound_unchanged test f cells (rw is at e)))
]

pub set_node-IsNodeList :
    (test : WtslNode → Bool) (f : WtslNode → WtslNode) (l : NodeList) (w : Ptr) (cells : Cells)
    → IsNodeList l cells
    → first test cells ≡ some w
    → (l' : NodeList) × (set_node l w f ≡ Run.value l') × IsNodeList l' (change_first test f cells)
unfolding set_node
set_node-IsNodeList test f l w cells wf e =
    let (m, q, ok, holds, linked) = change-Links test f l.heap w l.head cells wf.links e in
    (
      record l { heap = write l.heap w (some (cell (f m) q)) },
      rw (eq_false w null ok, holds) refl,
      record {
        links = linked;
        tail_is_last = wf.tail_is_last ∙ sym (last-change_first test f null cells);
        count_is_length = wf.count_is_length ∙ sym (length-change_first test f cells);
      },
    )

-- Every update ends and reads no cell outside the list: the first node that passes its test, if
-- there is one, is changed in its place, and all else stays as it was.
pub update-change_first :
    (test : WtslNode → Bool) (f : WtslNode → WtslNode) (l : NodeList) (cells : Cells)
    → IsNodeList l cells
    → (l' : NodeList) × ((find test l >>= at_found l f)
        ≡ Run.value (is_found (first test cells), l'))
      × IsNodeList l' (change_first test f cells)
update-change_first test f l cells wf = elim (Option-cases (first test cells)) [
  | inl e ↦ (l, rw (find-first test l cells wf, e) refl, rw (unfound_unchanged test f cells e) wf)
  | inr (w, e) ↦
      let (l', run, wf') = set_node-IsNodeList test f l w cells wf e in
      (l', rw (find-first test l cells wf, e, run) refl, wf')
]

abbrev pub has_id : ℕ → WtslNode → Bool
has_id id n = n.id == id

abbrev beat : ℕ → WtslNode → WtslNode
beat now n = record n { last_heartbeat = now; active = true }

-- A heartbeat of an id makes the first node with that id active, with the time of the heartbeat,
-- and reports whether there is one. All other nodes and the order stay. The search ends and reads
-- no cell outside the list.
pub heartbeat-change_first :
    (l : NodeList) (cells : Cells) (id now : ℕ)
    → IsNodeList l cells
    → (l' : NodeList) × (update_wtsl_node_heartbeat l id now
        ≡ Run.value (is_found (first (has_id id) cells), l'))
      × IsNodeList l' (change_first (has_id id) (beat now) cells)
unfolding update_wtsl_node_heartbeat
heartbeat-change_first l cells id now wf = update-change_first (has_id id) (beat now) l cells wf

-- An update replaces the first node whose MAC address begins, in either case, with that of the new
-- node, and reports whether there is one. An empty MAC address replaces the first node of all.
pub update_node-change_first :
    (l : NodeList) (cells : Cells) (n : WtslNode)
    → IsNodeList l cells
    → (l' : NodeList) × (update_wtsl_node l n
        ≡ Run.value (is_found (first (has_mac_prefix (c_string n.info.mac)) cells), l'))
      × IsNodeList l' (change_first (has_mac_prefix (c_string n.info.mac)) (λ old. n) cells)
unfolding update_wtsl_node
update_node-change_first l cells n wf =
    update-change_first (has_mac_prefix (c_string n.info.mac)) (λ old. n) l cells wf
