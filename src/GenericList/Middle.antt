-- ===== src/GenericList/Middle.antt =====
-- Insertions at an index.
use wtsl_app.Base.{
  ℕ, zero, suc, ◌+◌, ◌<◌, ◌≤◌, Bool, true, false, some, List, [], ◌∷◌, ◌==◌, ◌≡◌, refl, ◌≢◌, ap,
  ◌∙◌, sym, arith, ltb, if◌then◌else◌, length,
}
use wtsl_app.Nodes.{Ptr, null, Run, ◌>>=◌}
use wtsl_app.Nodes.Links.{eq_false}
use wtsl_app.GenericList.{
  ListNode, list_node, Memory, LinkedList, put, walk, put_behind, list_insert_head, list_insert_at,
}
use wtsl_app.GenericList.Chain.{Free, Chain, IsList, put_self, put_other, put-Chain, node_at_lem}

in_range : (n i k : ℕ) → suc i ≤ k → n ≡ k → ltb n (suc i) ≡ false
in_range n i k h e = ground arith

pub if_false : {B : Type 0} (b : Bool) (x y : B) → b ≡ false → (if b then x else y) ≡ y
if_false b x y h = rw h refl

module _ {A : Type 0} where
  abbrev pub insert_nth : ℕ → Ptr × A → List (Ptr × A) → List (Ptr × A)
  insert_nth zero y cells = y ∷ cells
  insert_nth (suc n) y [] = []
  insert_nth (suc n) y (x ∷ cells) = x ∷ insert_nth n y cells

  length-insert_nth :
      (n : ℕ) (y : Ptr × A) (cells : List (Ptr × A))
      → n ≤ length cells
      → length (insert_nth n y cells) ≡ suc (length cells)
  length-insert_nth zero y cells h = refl
  length-insert_nth (suc n) y [] h = absurd (omega arith)
  length-insert_nth (suc n) y (x ∷ cells) h = ap suc (length-insert_nth n y cells (omega arith))

  Free-insert_nth :
      (z : Ptr) (n : ℕ) (w : Ptr) (v : A) (cells : List (Ptr × A))
      → Free z cells
      → z ≢ w
      → Free z (insert_nth n (w, v) cells)
  Free-insert_nth z zero w v cells free ne = (ne, free)
  Free-insert_nth z (suc n) w v [] free ne = tt
  Free-insert_nth z (suc n) w v ((a, x) ∷ cells) (na, free) ne =
      (na, Free-insert_nth z n w v cells free ne)

  -- The cell at an index is read at b, and a new cell may be hung behind it.
  abbrev Hangs : Memory A → Ptr → List (Ptr × A) → ℕ → Ptr → A → Type 0
  Hangs h p cells i w v =
      (b : Ptr) × (x : A) × (q : Ptr) × (walk i h p ≡ Run.value b)
      × (b ≢ null)
      × (h b ≡ some (list_node x q))
      × ((z : Ptr) → Free z cells → z ≢ b)
      × Chain (put (put h w (some (list_node v q))) b (some (list_node x w))) p
          (insert_nth (suc i) (w, v) cells)

  hang-Chain :
      (h : Memory A) (p : Ptr) (cells : List (Ptr × A)) (i : ℕ) (w : Ptr) (v : A)
      → Chain h p cells
      → i < length cells
      → w ≢ null
      → Free w cells
      → Hangs h p cells i w v
  hang-Chain h p [] i w v ch lt ok free = absurd (omega arith)
  hang-Chain h p ((a, x) ∷ cells) zero w v (e, nn, apart, (q, at, rest)) lt ok (ne, free) =
      let h1 = put h w (some (list_node v q)) in
      (
        a,
        x,
        q,
        ap Run.value e,
        nn,
        at,
        (λ z (nz, more). nz),
        (
          e,
          nn,
          ((λ k. ne (sym k)), apart),
          (
            w,
            put_self h1 a _,
            (
              refl,
              ok,
              free,
              (
                q,
                put_other h1 a w _ ne ∙ put_self h w _,
                put-Chain h1 a _ q cells apart (put-Chain h w _ q cells free rest),
              ),
            ),
          ),
        ),
      )
  hang-Chain h p ((a, x) ∷ cells) (suc i) w v (e, nn, apart, (q, at, rest)) lt ok (ne, free) =
      let (b, y, r, walked, nb, found, away, linked) =
        hang-Chain h q cells i w v rest (omega arith) ok free in
      (
        b,
        y,
        r,
        rw (e, eq_false a null nn, at) walked,
        nb,
        found,
        (λ z (nz, more). away z more),
        (
          e,
          nn,
          Free-insert_nth a (suc i) w v cells apart (λ k. ne (sym k)),
          (
            q,
            put_other (put h w (some (list_node v r))) b a _ (away a apart)
                ∙ put_other h w a _ (λ k. ne (sym k))
                ∙ at,
            linked,
          ),
        ),
      )

  -- The new cell is linked behind the one that was read.
  abbrev linked_behind : LinkedList A → Ptr → A → Ptr → Run (ListNode A) → Run (Bool × LinkedList A)
  linked_behind l w v b r = r >>= λ c. Run.value (
    true,
    record {
      heap = put (put l.heap w (some (list_node v c.next))) b (some (list_node c.data_of w));
      head = l.head;
      size = l.size + 1;
    },
  )

  -- With memory, an insertion at an index up to the length ends, reads no cell outside the list,
  -- succeeds, and puts the new element at that index.
  pub insert_at-IsList :
      (l : LinkedList A) (i : ℕ) (w : Ptr) (v : A) (cells : List (Ptr × A))
      → IsList l cells
      → i ≤ length cells
      → w ≢ null
      → Free w cells
      → (l' : LinkedList A) × (list_insert_at l i w v ≡ Run.value (true, l'))
        × IsList l' (insert_nth i (w, v) cells)
  unfolding list_insert_at list_insert_head
  insert_at-IsList l zero w v cells is n ok free = (
    record { heap = put l.heap w (some (list_node v l.head)); head = w; size = l.size + 1 },
    ap (λ m. Run.value (true, m)) (if_false (w == null) l _ (eq_false w null ok)),
    record {
      chain = (
        refl,
        ok,
        free,
        (l.head, put_self l.heap w _, put-Chain l.heap w _ l.head cells free is.chain),
      );
      size_is_length = omega (arith, is.size_is_length);
    },
  )
  insert_at-IsList l (suc i) w v cells is n ok free =
      let (b, x, q, walked, nb, found, away, linked) =
        hang-Chain l.heap l.head cells i w v is.chain n ok free in
      (
        record {
          heap = put (put l.heap w (some (list_node v q))) b (some (list_node x w));
          head = l.head;
          size = l.size + 1;
        },
        if_false (ltb l.size (suc i)) _ _ (in_range l.size i (length cells) n is.size_is_length)
            ∙ ap (λ r. r >>= put_behind l w v) walked
            ∙ if_false (w == null) _ _ (eq_false w null ok)
            ∙ ap (linked_behind l w v b) (node_at_lem l.heap b (list_node x q) nb found),
        record {
          chain = linked;
          size_is_length =
              omega (arith, is.size_is_length, length-insert_nth (suc i) (w, v) cells n);
        },
      )
