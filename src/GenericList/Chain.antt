-- ===== src/GenericList/Chain.antt =====
-- Which cells a list reaches, and what reading and writing them does to it.
use wtsl_app.Base.{
  ℕ, zero, suc, ◌<◌, Option, some, List, [], ◌∷◌, ◌++◌, ==_refl, ◌≡◌, refl, ◌≢◌, ◌∙◌, sym, arith,
  length,
}
use wtsl_app.Nodes.{Ptr, null, Run}
use wtsl_app.Nodes.Links.{eq_false}
use wtsl_app.GenericList.{ListNode, list_node, Memory, LinkedList, put, node_at, last_loop}

module _ {A : Type 0} where
  -- No cell stands at the address.
  abbrev pub Free : Ptr → List (Ptr × A) → Type 0
  Free p [] = Unit
  Free p ((a, x) ∷ cells) = (p ≢ a) × Free p cells

  -- From the address one reaches these cells, all of them distinct, and then NULL.
  abbrev pub Chain : Memory A → Ptr → List (Ptr × A) → Type 0
  Chain h p [] = p ≡ null
  Chain h p ((a, x) ∷ cells) =
      (p ≡ a)
      × (a ≢ null)
      × Free a cells
      × ((q : Ptr) × (h a ≡ some (list_node x q)) × Chain h q cells)

  pub record IsList (l : LinkedList A) (cells : List (Ptr × A)) : Type 0 where
    pub chain : Chain l.heap l.head cells
    pub size_is_length : l.size ≡ length cells

  pub put_self : (h : Memory A) (p : Ptr) (c : Option (ListNode A)) → put h p c p ≡ c
  put_self h p c = rw (==_refl p) refl

  pub put_other : (h : Memory A) (p a : Ptr) (c : Option (ListNode A)) → a ≢ p → put h p c a ≡ h a
  put_other h p a c ne = rw (eq_false a p ne) refl

  -- A write elsewhere leaves the list as it is.
  pub put-Chain :
      (h : Memory A) (w : Ptr) (c : Option (ListNode A)) (p : Ptr) (cells : List (Ptr × A))
      → Free w cells
      → Chain h p cells
      → Chain (put h w c) p cells
  put-Chain h w c p [] free e = e
  put-Chain h w c p ((a, x) ∷ cells) (ne, free) (e, nn, fresh, (q, at, rest)) = (
    e,
    nn,
    fresh,
    (q, put_other h w a c (λ k. ne (sym k)) ∙ at, put-Chain h w c q cells free rest),
  )

  pub node_at_lem :
      (h : Memory A) (p : Ptr) (c : ListNode A)
      → p ≢ null
      → h p ≡ some c
      → node_at h p ≡ Run.value c
  node_at_lem h p c ne e = rw (eq_false p null ne, e) refl

  abbrev pub last_of : Ptr → List (Ptr × A) → Ptr
  last_of d [] = d
  last_of d ((a, x) ∷ cells) = last_of a cells

  pub Free-last :
      (z b : Ptr) (y : A) (cells : List (Ptr × A)) → Free z ((b, y) ∷ cells) → z ≢ last_of b cells
  Free-last z b y [] (ne, free) = ne
  Free-last z b y ((c, x) ∷ cells) (ne, free) = Free-last z c x cells free

  pub Free-append :
      (z : Ptr) (cells : List (Ptr × A)) (w : Ptr) (v : A)
      → Free z cells
      → z ≢ w
      → Free z (cells ++ (w, v) ∷ [])
  Free-append z [] w v free ne = (ne, tt)
  Free-append z ((a, x) ∷ cells) w v (na, free) ne = (na, Free-append z cells w v free ne)

  -- The walk to the last cell.
  pub last_loop-last :
      (k : ℕ) (h : Memory A) (p a : Ptr) (x : A) (cells : List (Ptr × A))
      → Chain h p ((a, x) ∷ cells)
      → length cells < k
      → last_loop k h p ≡ Run.value (last_of a cells)
  last_loop-last zero h p a x cells ch lt = absurd (omega arith)
  last_loop-last (suc k) h p a x [] (e, nn, fresh, (q, at, end)) lt =
      rw (e, eq_false a null nn, at, end) refl
  last_loop-last (suc k) h p a x ((b, y) ∷ cells) (e, nn, fresh, (q, at, rest)) lt =
      let (eb, nb, fb, more) = rest in
      rw (e, eq_false a null nn, at, eb, eq_false b null nb)
        (last_loop-last k h b b y cells (refl, nb, fb, more) (omega arith))

  -- The last cell points to NULL, and it may be made to point to a new last cell.
  pub last-Chain :
      (h : Memory A) (a : Ptr) (x : A) (cells : List (Ptr × A)) (p w : Ptr) (v : A)
      → Chain h p ((a, x) ∷ cells)
      → h w ≡ some (list_node v null)
      → w ≢ null
      → Free w ((a, x) ∷ cells)
      → (y : A) × (q : Ptr) × (last_of a cells ≢ null)
        × (h (last_of a cells) ≡ some (list_node y q))
        × Chain (put h (last_of a cells) (some (list_node y w))) p (((a, x) ∷ cells) ++ (w, v) ∷ [])
  last-Chain h a x [] p w v (e, nn, fresh, (q, at, end)) new ok (ne, free) = (
    x,
    q,
    nn,
    at,
    (
      e,
      nn,
      (λ k. ne (sym k), tt),
      (w, put_self h a _, (refl, ok, tt, (null, put_other h a w _ ne ∙ new, refl))),
    ),
  )
  last-Chain h a x ((b, m) ∷ cells) p w v (e, nn, fresh, (q, at, rest)) new ok (ne, free) =
      let (y, r, there, found, linked) = last-Chain h b m cells q w v rest new ok free in
      (
        y,
        r,
        there,
        found,
        (
          e,
          nn,
          Free-append a ((b, m) ∷ cells) w v fresh (λ k. ne (sym k)),
          (q, put_other h (last_of b cells) a _ (Free-last a b m cells fresh) ∙ at, linked),
        ),
      )
