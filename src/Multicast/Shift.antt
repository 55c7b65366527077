-- ===== src/Multicast/Shift.antt =====
-- Removing one entry of the table by the inner loop of `clean_timeout_mc_nodes`.
use mathlib.Core.List.{append_assoc}
use wtsl_app.Base.{
  ℕ, ◌+◌, ◌-◌, ◌≡◌, refl, sym, ap, ◌∙◌, List, [], ◌∷◌, ◌++◌, arith, length, set, get_or-append,
  set-append, length-append,
}
use wtsl_app.Multicast.{McNodeInfo, McTable, blank, cell, shift_loop, remove_node}
use wtsl_app.Multicast.Live.{IsTable}

last_of : McNodeInfo → List McNodeInfo → McNodeInfo
last_of x [] = x
last_of x (y ∷ ys) = last_of y ys

-- The entries behind the removed one move up by a cell, and the last one is left twice.
shift_loop-append :
    (pre : List McNodeInfo) (x : McNodeInfo) (xs dead : List McNodeInfo) (i : ℕ)
    → i ≡ length pre
    → shift_loop (length xs) i (pre ++ x ∷ (xs ++ dead)) ≡ pre ++ (xs ++ last_of x xs ∷ dead)
unfolding shift_loop last_of
shift_loop-append pre x [] dead i e = refl
shift_loop-append pre x (y ∷ ys) dead i e =
    ap (λ l. shift_loop (length ys) (i + 1) l) written
    ∙ shift_loop-append (pre ++ y ∷ []) y ys dead (i + 1)
        (omega (arith, length-append pre (y ∷ [])))
    ∙ append_assoc pre (y ∷ []) _
  where
    regrouped : pre ++ x ∷ (y ∷ (ys ++ dead)) ≡ (pre ++ x ∷ []) ++ y ∷ (ys ++ dead)
    regrouped = sym (append_assoc pre (x ∷ []) _)

    read : cell (pre ++ x ∷ (y ∷ (ys ++ dead))) (i + 1) ≡ y
    read =
        ap (λ l. cell l (i + 1)) regrouped
        ∙ get_or-append (pre ++ x ∷ []) (ys ++ dead) (i + 1) y blank
            (omega (arith, length-append pre (x ∷ [])))

    written :
        set (pre ++ x ∷ (y ∷ (ys ++ dead))) i (cell (pre ++ x ∷ (y ∷ (ys ++ dead))) (i + 1))
        ≡ (pre ++ y ∷ []) ++ y ∷ (ys ++ dead)
    written =
        ap (λ v. set (pre ++ x ∷ (y ∷ (ys ++ dead))) i v) read
        ∙ set-append pre (y ∷ (ys ++ dead)) i x y e
        ∙ sym (append_assoc pre (y ∷ []) _)

pub remove_node-IsTable :
    {t : McTable} (pre : List McNodeInfo) (x : McNodeInfo) (xs : List McNodeInfo) (i : ℕ)
    → i ≡ length pre
    → IsTable t (pre ++ x ∷ xs)
    → IsTable (remove_node t i) (pre ++ xs)
unfolding remove_node
remove_node-IsTable {t} pre x xs i e h = record {
  dead = last_of x xs ∷ h.dead;
  cells =
      ap (λ k. shift_loop k i t.mc_nodes) rounds
      ∙ ap (λ l. shift_loop (length xs) i l) (h.cells ∙ append_assoc pre (x ∷ xs) h.dead)
      ∙ shift_loop-append pre x xs h.dead i e
      ∙ sym (append_assoc pre xs _);
  counted = omega (arith, h.counted, length-append pre (x ∷ xs), length-append pre xs);
  total = omega (arith, h.total, length-append pre (x ∷ xs), length-append pre xs);
}
  where
    rounds : t.mc_node_count - 1 - i ≡ length xs
    rounds = omega (arith, h.counted, length-append pre (x ∷ xs))
