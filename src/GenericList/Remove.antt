-- ===== src/GenericList/Remove.antt =====
-- Deletions at an index.
use wtsl_app.Base.{
  ℕ, zero, suc, ◌-◌, ◌<◌, Bool, true, false, Option, none, some, List, [], ◌∷◌, ◌==◌, ◌≡◌, ◌≢◌,
  refl, ap, ◌∙◌, sym, arith, leb, length,
}
use mathlib.Core.Path.{subst}
use wtsl_app.Nodes.{Ptr, null, Run, ◌>>=◌}
use wtsl_app.Nodes.Links.{eq_false}
use wtsl_app.GenericList.{
  ListNode, list_node, Memory, LinkedList, put, node_at, walk, cut_behind, list_remove_head,
  list_remove_at,
}
use wtsl_app.GenericList.Chain.{Free, Chain, IsList, put_self, put_other, put-Chain, node_at_lem}
use wtsl_app.GenericList.Middle.{if_false}

in_range : (n i k : ℕ) → suc i < k → n ≡ k → leb n (suc i) ≡ false
in_range n i k h e = ground arith

not_empty : (n k : ℕ) → 0 < k → n ≡ k → (n == 0) ≡ false
not_empty n k h e = ground arith

module _ {A : Type 0} where
  abbrev pub remove_nth : ℕ → List (Ptr × A) → List (Ptr × A)
  remove_nth n [] = []
  remove_nth zero (x ∷ cells) = cells
  remove_nth (suc n) (x ∷ cells) = x ∷ remove_nth n cells

  pub length-remove_nth :
      (n : ℕ) (cells : List (Ptr × A))
      → n < length cells
      → length (remove_nth n cells) ≡ length cells - 1
  length-remove_nth n [] h = absurd (omega arith)
  length-remove_nth zero (x ∷ cells) h = omega arith
  length-remove_nth (suc n) (x ∷ []) h = absurd (omega arith)
  length-remove_nth (suc n) (x ∷ (y ∷ cells)) h =
      omega (arith, length-remove_nth n (y ∷ cells) (omega arith))

  pub Free-remove_nth :
      (z : Ptr) (n : ℕ) (cells : List (Ptr × A)) → Free z cells → Free z (remove_nth n cells)
  Free-remove_nth z n [] free = tt
  Free-remove_nth z zero ((a, x) ∷ cells) (na, free) = free
  Free-remove_nth z (suc n) ((a, x) ∷ cells) (na, free) = (na, Free-remove_nth z n cells free)

  -- The address of the cell at an index.
  abbrev pub address_at : ℕ → List (Ptr × A) → Option Ptr
  address_at n [] = none
  address_at zero ((a, x) ∷ cells) = some a
  address_at (suc n) (x ∷ cells) = address_at n cells

  -- The cells at an index and behind it are read at b and c, and the one behind may be taken out and
  -- freed.
  abbrev Cuts : Memory A → Ptr → List (Ptr × A) → ℕ → Type 0
  Cuts h p cells i =
      (b : Ptr) × (x : A) × (c : Ptr) × (y : A) × (r : Ptr) × (walk i h p ≡ Run.value b)
      × (b ≢ null)
      × (h b ≡ some (list_node x c))
      × (c ≢ null)
      × (h c ≡ some (list_node y r))
      × ((z : Ptr) → Free z cells → (z ≢ b) × (z ≢ c))
      × (address_at (suc i) cells ≡ some c)
      × Chain (put (put h b (some (list_node x r))) c none) p (remove_nth (suc i) cells)

  cut-Chain :
      (h : Memory A) (p : Ptr) (cells : List (Ptr × A)) (i : ℕ)
      → Chain h p cells
      → suc i < length cells
      → Cuts h p cells i
  cut-Chain h p [] i ch lt = absurd (omega arith)
  cut-Chain h p ((a, x) ∷ []) i ch lt = absurd (omega arith)
  cut-Chain h p ((a, x) ∷ ((c, y) ∷ cells)) zero
        (e, nn, (ne, apart), (q, at, (ec, nc, fc, (r, ac, rest)))) lt =
      let h1 = put h a (some (list_node x r)) in
      (
        a,
        x,
        c,
        y,
        r,
        ap Run.value e,
        nn,
        at ∙ ap (λ w. some (list_node x w)) ec,
        nc,
        ac,
        (λ z (na, (nz, more)). (na, nz)),
        refl,
        (
          e,
          nn,
          apart,
          (
            r,
            put_other h1 c a none ne ∙ put_self h a _,
            put-Chain h1 c none r cells fc (put-Chain h a _ r cells apart rest),
          ),
        ),
      )
  cut-Chain h p ((a, x) ∷ ((c, y) ∷ cells)) (suc i) (e, nn, apart, (q, at, rest)) lt =
      let (b, m, d, n, r, walked, nb, fb, nd, fd, away, is, linked) =
        cut-Chain h q ((c, y) ∷ cells) i rest (omega arith) in
      let (ab, ad) = away a apart in
      (
        b,
        m,
        d,
        n,
        r,
        rw (e, eq_false a null nn, at) walked,
        nb,
        fb,
        nd,
        fd,
        (λ z (nz, more). away z more),
        is,
        (
          e,
          nn,
          Free-remove_nth a (suc i) ((c, y) ∷ cells) apart,
          (
            q,
            put_other (put h b (some (list_node m r))) d a none ad ∙ put_other h b a _ ab ∙ at,
            linked,
          ),
        ),
      )

  -- What is behind the reading of the first and of the second cell.
  abbrev cut_second : LinkedList A → Ptr → ListNode A → Run (ListNode A) → Run (Bool × LinkedList A)
  cut_second l b c t = t >>= λ temp. Run.value (
    true,
    record {
      heap = put (put l.heap b (some (list_node c.data_of temp.next))) c.next none;
      head = l.head;
      size = l.size - 1;
    },
  )

  abbrev cut_first : LinkedList A → Ptr → Run (ListNode A) → Run (Bool × LinkedList A)
  cut_first l b t = t >>= λ c. cut_second l b c (node_at l.heap c.next)

  abbrev beheaded : LinkedList A → Run (ListNode A) → Run (Bool × LinkedList A)
  beheaded l t = t >>= λ c.
      Run.value (true, record { heap = put l.heap l.head none; head = c.next; size = l.size - 1 })

  remove_head_lem :
      (l : LinkedList A) (c : ListNode A)
      → (l.size == 0) ≡ false
      → l.head ≢ null
      → l.heap l.head ≡ some c
      → list_remove_head l
        ≡ Run.value
            (true, record { heap = put l.heap l.head none; head = c.next; size = l.size - 1 })
  unfolding list_remove_head
  remove_head_lem l c h ok at =
      if_false (l.size == 0) (Run.value (false, l)) (beheaded l (node_at l.heap l.head)) h
      ∙ ap (beheaded l) (node_at_lem l.heap l.head c ok at)

  counted :
      (a : Ptr) (x : A) (cells : List (Ptr × A)) (l : LinkedList A)
      → IsList l ((a, x) ∷ cells)
      → (l.size == 0) ≡ false
  counted a x cells l is =
      not_empty l.size (length ((a, x) ∷ cells)) (omega arith) is.size_is_length

  -- A deletion at an index inside the list ends, reads no cell outside the list and succeeds. It frees
  -- the cell of that index, behind whose address nothing is left, and the others stay in their order.
  pub remove_at-IsList :
      (l : LinkedList A) (i : ℕ) (cells : List (Ptr × A))
      → IsList l cells
      → i < length cells
      → (l' : LinkedList A) × (a : Ptr) × (list_remove_at l i ≡ Run.value (true, l'))
        × (address_at i cells ≡ some a)
        × (l'.heap a ≡ none)
        × IsList l' (remove_nth i cells)
  unfolding list_remove_at
  remove_at-IsList l i [] is n = absurd (omega arith)
  remove_at-IsList l zero ((a, x) ∷ cells) is n =
      let (e, nn, apart, (q, at, rest)) = is.chain in
      (
        record { heap = put l.heap l.head none; head = q; size = l.size - 1 },
        l.head,
        if_false (l.size == 0) (Run.value (false, l)) (list_remove_head l) (counted a x cells l is)
            ∙ remove_head_lem l (list_node x q) (counted a x cells l is) (λ k. nn (sym e ∙ k))
                (ap l.heap e ∙ at),
        ap some (sym e),
        put_self l.heap l.head none,
        record {
          chain =
              put-Chain l.heap l.head none q cells (subst (λ v. Free v cells) (sym e) apart) rest;
          size_is_length = omega (arith, is.size_is_length);
        },
      )
  remove_at-IsList l (suc i) ((a, x) ∷ cells) is n =
      let (b, m, d, k, r, walked, nb, fb, nd, fd, away, found, linked) =
        cut-Chain l.heap l.head ((a, x) ∷ cells) i is.chain n in
      (
        record {
          heap = put (put l.heap b (some (list_node m r))) d none;
          head = l.head;
          size = l.size - 1;
        },
        d,
        if_false (leb l.size (suc i)) _ _
              (in_range l.size i (length ((a, x) ∷ cells)) n is.size_is_length)
            ∙ ap (λ t. t >>= cut_behind l) walked
            ∙ ap (cut_first l b) (node_at_lem l.heap b (list_node m d) nb fb)
            ∙ ap (cut_second l b (list_node m d)) (node_at_lem l.heap d (list_node k r) nd fd),
        found,
        put_self (put l.heap b (some (list_node m r))) d none,
        record {
          chain = linked;
          size_is_length =
              omega (arith, is.size_is_length, length-remove_nth (suc i) ((a, x) ∷ cells) n);
        },
      )
