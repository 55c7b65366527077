-- ===== src/Nodes/Links.antt =====
-- The shape of the linked list: which cells the list head reaches, and what reading and writing
-- them does to it.
use wtsl_app.Base.{
  ℕ, false, Option, some, List, [], ◌∷◌, ◌++◌, ◌==◌, ◌≡◌, refl, ◌≢◌, ◌∙◌, sym, ap, arith, length,
  ==_refl,
}
use wtsl_app.Nodes.{Ptr, null, WtslNode, Cell, cell, Heap, write, NodeList, Run, load}

abbrev pub Cells : Type 0
Cells = List (Ptr × WtslNode)

-- No cell stands at the address.
abbrev pub Apart : Ptr → Cells → Type 0
Apart p [] = Unit
Apart p ((a, n) ∷ cells) = (p ≢ a) × Apart p cells

-- From the address one reaches these cells, all of them distinct, and then NULL.
abbrev pub Links : Heap → Ptr → Cells → Type 0
Links h p [] = p ≡ null
Links h p ((a, n) ∷ cells) =
    (p ≡ a) × (a ≢ null) × Apart a cells × ((q : Ptr) × (h a ≡ some (cell n q)) × Links h q cells)

abbrev pub last_address : Ptr → Cells → Ptr
last_address d [] = d
last_address d ((a, n) ∷ cells) = last_address a cells

pub record IsNodeList (l : NodeList) (cells : Cells) : Type 0 where
  pub links : Links l.heap l.head cells
  pub tail_is_last : l.tail ≡ last_address null cells
  pub count_is_length : l.node_count ≡ length cells

pub eq_false : (a b : ℕ) → a ≢ b → (a == b) ≡ false
eq_false a b ne = ground arith

pub ne_of_false : (a b : ℕ) → (a == b) ≡ false → a ≢ b
ne_of_false a b e = ground arith

pub load_lem : (h : Heap) (p : Ptr) (c : Cell) → p ≢ null → h p ≡ some c → load h p ≡ Run.value c
load_lem h p c ne e = rw (eq_false p null ne, e) refl

pub write_self : (h : Heap) (p : Ptr) (c : Option Cell) → write h p c p ≡ c
write_self h p c = rw (==_refl p) refl

pub write_other : (h : Heap) (p a : Ptr) (c : Option Cell) → a ≢ p → write h p c a ≡ h a
write_other h p a c ne = rw (eq_false a p ne) refl

-- A write elsewhere leaves the list as it is.
pub write-Links :
    (h : Heap) (w : Ptr) (c : Option Cell) (p : Ptr) (cells : Cells)
    → Apart w cells
    → Links h p cells
    → Links (write h w c) p cells
write-Links h w c p [] ap0 e = e
write-Links h w c p ((a, n) ∷ cells) (ne, apart) (e, nn, fresh, (q, at, rest)) = (
  e,
  nn,
  fresh,
  (q, write_other h w a c (λ k. ne (sym k)) ∙ at, write-Links h w c q cells apart rest),
)

pub Apart-last :
    (x b : Ptr) (m : WtslNode) (cells : Cells) → Apart x ((b, m) ∷ cells) → x ≢ last_address b cells
Apart-last x b m [] (ne, apart) = ne
Apart-last x b m ((c, n) ∷ cells) (ne, apart) = Apart-last x c n cells apart

pub Apart-append :
    (x : Ptr) (cells : Cells) (w : Ptr) (v : WtslNode)
    → Apart x cells
    → x ≢ w
    → Apart x (cells ++ (w, v) ∷ [])
Apart-append x [] w v apart ne = (ne, tt)
Apart-append x ((a, n) ∷ cells) w v (na, apart) ne = (na, Apart-append x cells w v apart ne)

pub last_not_null :
    (h : Heap) (a : Ptr) (n : WtslNode) (cells : Cells) (p : Ptr)
    → Links h p ((a, n) ∷ cells)
    → last_address a cells ≢ null
last_not_null h a n [] p (e, nn, fresh, rest) = nn
last_not_null h a n ((b, m) ∷ cells) p (e, nn, fresh, (q, at, rest)) =
    last_not_null h b m cells q rest

-- The last cell points to NULL, and it may be made to point to a new last cell.
pub last-Links :
    (h : Heap) (a : Ptr) (n : WtslNode) (cells : Cells) (p w : Ptr) (v : WtslNode)
    → Links h p ((a, n) ∷ cells)
    → h w ≡ some (cell v null)
    → w ≢ null
    → Apart w ((a, n) ∷ cells)
    → (m : WtslNode) × (h (last_address a cells) ≡ some (cell m null))
      × Links (write h (last_address a cells) (some (cell m w))) p (((a, n) ∷ cells) ++ (w, v) ∷ [])
last-Links h a n [] p w v (e, nn, fresh, (q, at, end)) new ok (ne, apart) = (
  n,
  at ∙ ap (λ x. some (cell n x)) end,
  (
    e,
    nn,
    (λ k. ne (sym k), tt),
    (w, write_self h a _, (refl, ok, tt, (null, write_other h a w _ ne ∙ new, refl))),
  ),
)
last-Links h a n ((b, m) ∷ cells) p w v (e, nn, fresh, (q, at, rest)) new ok (ne, apart) =
    let (k, found, linked) = last-Links h b m cells q w v rest new ok apart in
    (
      k,
      found,
      (
        e,
        nn,
        Apart-append a ((b, m) ∷ cells) w v fresh (λ x. ne (sym x)),
        (q, write_other h (last_address b cells) a _ (Apart-last a b m cells fresh) ∙ at, linked),
      ),
    )
