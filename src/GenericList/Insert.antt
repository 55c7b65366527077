-- ===== src/GenericList/Insert.antt =====
-- Insertions at the end, and the element at an index.
use wtsl_app.Base.{
  ℕ, zero, suc, ◌+◌, ◌<◌, ◌≤◌, Bool, true, false, Option, none, some, List, [], ◌∷◌, ◌++◌, ◌==◌,
  ◌≡◌, refl, ◌≢◌, ap, ◌∙◌, sym, arith, leb, if◌then◌else◌, length, length-append, get_elem?,
  Bool-cases, inl, inr,
}
use wtsl_app.Nodes.{Ptr, null, Run, ◌>>=◌}
use wtsl_app.Nodes.Links.{eq_false, ne_of_false}
use wtsl_app.GenericList.{
  ListNode, list_node, Memory, LinkedList, put, node_at, walk, put_last, list_insert_tail, list_get,
}
use wtsl_app.GenericList.Chain.{
  Free, Chain, IsList, put_self, put-Chain, node_at_lem, last_of, last_loop-last, last-Chain,
}

beyond : (n i k : ℕ) → leb n i ≡ true → n ≡ k → k ≤ i
beyond n i k h e = ground arith

within : (n i k : ℕ) → leb n i ≡ false → n ≡ k → i < k
within n i k h e = ground arith

if_false : {B : Type 0} (b : Bool) (x y : B) → b ≡ false → (if b then x else y) ≡ y
if_false b x y h = rw h refl

module _ {A : Type 0} where
  -- The new cell is made the next one of the cell that was read.
  abbrev hung : LinkedList A → Memory A → Ptr → Ptr → Run (ListNode A) → Run (LinkedList A)
  hung l h fresh cur r =
      r
      >>= (λ c. Run.value (put h cur (some (list_node c.data_of fresh))))
      >>= (λ h'. Run.value (record { heap = h'; head = l.head; size = l.size + 1 }))

  abbrev hang : LinkedList A → Memory A → Ptr → Ptr → Run (LinkedList A)
  hang l h fresh cur = hung l h fresh cur (node_at h cur)

  put_last-IsList :
      (l : LinkedList A) (fresh : Ptr) (v : A) (cells : List (Ptr × A))
      → IsList l cells
      → fresh ≢ null
      → Free fresh cells
      → (l' : LinkedList A) × (put_last l fresh v ≡ Run.value l')
        × IsList l' (cells ++ (fresh, v) ∷ [])
  put_last-IsList l fresh v [] is ok free = (
    record { heap = put l.heap fresh (some (list_node v null)); head = fresh; size = l.size + 1 },
    rw is.chain refl,
    record {
      chain = (refl, ok, tt, (null, put_self l.heap fresh _, refl));
      size_is_length = ap (λ n. n + 1) is.size_is_length;
    },
  )
  put_last-IsList l fresh v ((a, x) ∷ cells) is ok free =
      let (e, nn, apart, more) = is.chain in
      let h = put l.heap fresh (some (list_node v null)) in
      let held =
        put-Chain l.heap fresh (some (list_node v null)) l.head ((a, x) ∷ cells) free is.chain in
      let (y, q, there, found, linked) =
        last-Chain h a x cells l.head fresh v held (put_self l.heap fresh _) ok free in
      (
        record {
          heap = put h (last_of a cells) (some (list_node y fresh));
          head = l.head;
          size = l.size + 1;
        },
        if_false (l.head == null) _ _ (eq_false l.head null (λ k. nn (sym e ∙ k)))
            ∙ ap (λ r. r >>= hang l h fresh)
                (last_loop-last (l.size + 1) h l.head a x cells held
                  (omega (arith, is.size_is_length)))
            ∙ ap (hung l h fresh (last_of a cells))
                (node_at_lem h (last_of a cells) (list_node y q) there found),
        record {
          chain = linked;
          size_is_length =
              omega (arith, is.size_is_length, length-append ((a, x) ∷ cells) ((fresh, v) ∷ []));
        },
      )

  -- A tail insertion ends and reads no cell outside the list. With memory the new element stands
  -- behind all others; without, the list is as it was.
  pub insert_tail-IsList :
      (l : LinkedList A) (fresh : Ptr) (v : A) (cells : List (Ptr × A))
      → IsList l cells
      → Free fresh cells
      → (l' : LinkedList A) × (list_insert_tail l fresh v ≡ Run.value l')
        × IsList l' (if fresh == null then cells else cells ++ (fresh, v) ∷ [])
  unfolding list_insert_tail
  insert_tail-IsList l fresh v cells is free = elim (Bool-cases (fresh == null)) [
    | inl e ↦ (l, rw e refl, rw e is)
    | inr e ↦
        let (l', run, is') = put_last-IsList l fresh v cells is (ne_of_false fresh null e) free in
        (l', rw e run, rw e is')
  ]

  -- The data of the cells.
  abbrev pub contents : List (Ptr × A) → List A
  contents [] = []
  contents ((a, x) ∷ cells) = x ∷ contents cells

  -- What list_get reads behind so many cells.
  abbrev reached : ℕ → Memory A → Ptr → Run (Option A)
  reached index h p = walk index h p >>= λ cur. node_at h cur >>= λ c. Run.value (some c.data_of)

  reached_lem :
      (index : ℕ) (h : Memory A) (p : Ptr) (cells : List (Ptr × A))
      → Chain h p cells
      → index < length cells
      → reached index h p ≡ Run.value (get_elem? (contents cells) index)
  reached_lem index h p [] ch lt = absurd (omega arith)
  reached_lem zero h p ((a, x) ∷ cells) (e, nn, apart, (q, at, rest)) lt =
      rw (e, eq_false a null nn, at) refl
  reached_lem (suc index) h p ((a, x) ∷ cells) (e, nn, apart, (q, at, rest)) lt =
      rw (e, eq_false a null nn, at) (reached_lem index h q cells rest (omega arith))

  get_elem?_beyond :
      (cells : List (Ptr × A)) (index : ℕ)
      → length cells ≤ index
      → get_elem? (contents cells) index ≡ none
  get_elem?_beyond [] index h = refl
  get_elem?_beyond ((a, x) ∷ cells) zero h = absurd (omega arith)
  get_elem?_beyond ((a, x) ∷ cells) (suc index) h = get_elem?_beyond cells index (omega arith)

  -- list_get ends and gives the element at the index, or NULL behind the last one.
  pub list_get-get_elem :
      (l : LinkedList A) (cells : List (Ptr × A)) (index : ℕ)
      → IsList l cells
      → list_get l index ≡ Run.value (get_elem? (contents cells) index)
  unfolding list_get
  list_get-get_elem l cells index is = elim (Bool-cases (leb l.size index)) [
    | inl e ↦ rw e (
        ap Run.value
          (sym (get_elem?_beyond cells index (beyond l.size index _ e is.size_is_length))))
    | inr e ↦
        rw e (
          reached_lem index l.heap l.head cells is.chain
            (within l.size index _ e is.size_is_length))
  ]
