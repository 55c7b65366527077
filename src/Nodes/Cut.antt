-- ===== src/Nodes/Cut.antt =====
-- A node taken out of the shape of the list.
use wtsl_app.Base.{
  ℕ, suc, Option, none, some, [], ◌∷◌, ◌==◌, ◌≡◌, refl, ◌≢◌, ◌∙◌, sym, ap, if◌then◌else◌, length,
  ==_refl, Bool-cases, inl, inr,
}
use wtsl_app.Nodes.{Ptr, null, WtslNode, cell, Heap, write}
use wtsl_app.Nodes.Links.{
  Cells, Apart, Links, last_address, eq_false, write_self, write_other, write-Links, Apart-last,
}

-- The list without the first node that has the id.
unfoldable pub without : ℕ → Cells → Cells
without id [] = []
without id ((a, n) ∷ cells) = if n.id == id then cells else (a, n) ∷ without id cells

-- The first node that has the id and the address before it.
unfoldable pub locate : ℕ → Ptr → Cells → Option (Ptr × Ptr)
locate id prev [] = none
locate id prev ((a, n) ∷ cells) = if n.id == id then some (prev, a) else locate id a cells

-- p is the cell behind prev in the list from b on, and without it the list is the second one.
pub record IsCut (h : Heap) (x b : Ptr) (n : WtslNode) (cells cells' : Cells) (prev p : Ptr)
    : Type 0 where
  pub before : WtslNode
  pub gone : WtslNode
  pub after : Ptr
  pub prev_ok : prev ≢ null
  pub p_ok : p ≢ null
  pub at_prev : h prev ≡ some (cell before p)
  pub at_p : h p ≡ some (cell gone after)
  pub linked : Links (write (write h prev (some (cell before after))) p none) x ((b, n) ∷ cells')
  pub last :
      last_address b cells' ≡ (if last_address b cells == p then prev else last_address b cells)
  pub one_less : length cells ≡ suc (length cells')
  pub inside : (z : Ptr) → Apart z ((b, n) ∷ cells) → (z ≢ prev) × (z ≢ p)

abbrev pub Cut :
    (h : Heap) (x b : Ptr) (n : WtslNode) (cells cells' : Cells) → Option (Ptr × Ptr) → Type 0
Cut h x b n cells cells' none = cells' ≡ cells
Cut h x b n cells cells' (some (prev, p)) = IsCut h x b n cells cells' prev p

Apart-without : (id x : ℕ) (cells : Cells) → Apart x cells → Apart x (without id cells)
unfolding without
Apart-without id x [] apart = tt
Apart-without id x ((a, n) ∷ cells) (ne, apart) = elim (Bool-cases (n.id == id)) [
  | inl is ↦ rw is apart
  | inr is ↦ rw is (ne, Apart-without id x cells apart)
]

-- What is cut further on is cut here.
Cut-cons :
    (h : Heap) (x b a : Ptr) (n m : WtslNode) (cells cells' : Cells) (o : Option (Ptr × Ptr))
    → x ≡ b
    → b ≢ null
    → Apart b ((a, m) ∷ cells)
    → Apart b cells'
    → h b ≡ some (cell n a)
    → Cut h a a m cells cells' o
    → Cut h x b n ((a, m) ∷ cells) ((a, m) ∷ cells') o
Cut-cons h x b a n m cells cells' none e ok fresh fresh' at c = ap (λ l. (a, m) ∷ l) c
Cut-cons h x b a n m cells cells' (some (prev, p)) e ok fresh fresh' at c =
    let (np, nq) = c.inside b fresh in
    record {
      before = c.before;
      gone = c.gone;
      after = c.after;
      prev_ok = c.prev_ok;
      p_ok = c.p_ok;
      at_prev = c.at_prev;
      at_p = c.at_p;
      linked = (
        e,
        ok,
        (fresh.0, fresh'),
        (
          a,
          write_other (write h prev (some (cell c.before c.after))) p b none nq
              ∙ (write_other h prev b (some (cell c.before c.after)) np ∙ at),
          c.linked,
        ),
      );
      last = c.last;
      one_less = ap suc c.one_less;
      inside = λ z apart. c.inside z apart.1;
    }

pub last-first_cut :
    (a b : Ptr) (cells : Cells)
    → Apart a cells
    → last_address b cells ≡ (if last_address a cells == a then b else last_address a cells)
last-first_cut a b [] apart = rw (==_refl a) refl
last-first_cut a b ((c, m) ∷ cells) apart =
    rw (eq_false (last_address c cells) a (λ k. Apart-last a c m cells apart (sym k))) refl

pub delete-Cut :
    (id : ℕ) (h : Heap) (x b : Ptr) (n : WtslNode) (cells : Cells)
    → Links h x ((b, n) ∷ cells)
    → Cut h x b n cells (without id cells) (locate id b cells)
unfolding locate without
delete-Cut id h x b n [] ln = refl
delete-Cut id h x b n ((a, m) ∷ cells)
      (e, nn, (ne, fresh), (q, at, (eq, na, fresh_a, (r, at_a, rest)))) =
    let at' : h b ≡ some (cell n a) = at ∙ ap (λ y. some (cell n y)) eq in
    elim (Bool-cases (m.id == id)) [
      | inl is ↦ rw is (record {
        before = n;
        gone = m;
        after = r;
        prev_ok = nn;
        p_ok = na;
        at_prev = at';
        at_p = at_a;
        linked = (
          e,
          nn,
          fresh,
          (
            r,
            write_other (write h b (some (cell n r))) a b none ne
                ∙ write_self h b (some (cell n r)),
            write-Links (write h b (some (cell n r))) a none r cells fresh_a
                (write-Links h b (some (cell n r)) r cells fresh rest),
          ),
        );
        last = last-first_cut a b cells fresh_a;
        one_less = refl;
        inside = λ z apart. (apart.0, apart.1.0);
      })
      | inr is ↦ rw is (
          Cut-cons h x b a n m cells (without id cells) (locate id a cells) e nn (ne, fresh)
            (Apart-without id b cells fresh) at'
            (delete-Cut id h a a m cells (refl, na, fresh_a, (r, at_a, rest))))
    ]
