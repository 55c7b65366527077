-- ===== src/Multicast/Clean.antt =====
-- `clean_timeout_mc_nodes` keeps exactly the peers that are not silent, in their order.
use mathlib.Core.List.{append_assoc}
use wtsl_app.Base.{
  ℕ, zero, suc, ◌+◌, ◌≤◌, ◌≡◌, refl, sym, ap, ◌∙◌, true, false, List, [], ◌∷◌, ◌++◌, inl, inr,
  arith, ltb, leb, Bool-cases, length, get_or-append, length-append,
}
use mathlib.Core.Path.{subst}
use wtsl_app.Multicast.{
  McNodeInfo, McTable, blank, cell, timed_out, node_timeout, clean_loop, clean_timeout_mc_nodes,
}
use wtsl_app.Multicast.Live.{IsTable, survivors}
use wtsl_app.Multicast.Shift.{remove_node-IsTable}

cell-IsTable :
    {t : McTable} (pre : List McNodeInfo) (x : McNodeInfo) (xs : List McNodeInfo) (i : ℕ)
    → i ≡ length pre
    → IsTable t (pre ++ x ∷ xs)
    → cell t.mc_nodes i ≡ x
cell-IsTable {t} pre x xs i e h =
    ap (λ l. cell l i) (h.cells ∙ append_assoc pre (x ∷ xs) h.dead)
    ∙ get_or-append pre (xs ++ h.dead) i x blank e

clean_loop-IsTable :
    (fuel : ℕ) {t : McTable} (pre xs : List McNodeInfo) (i now : ℕ)
    → i ≡ length pre
    → length xs ≤ fuel
    → IsTable t (pre ++ xs)
    → IsTable (clean_loop fuel i now t) (pre ++ survivors now xs)
unfolding clean_loop timed_out
clean_loop-IsTable zero pre [] i now e f h = h
clean_loop-IsTable zero pre (x ∷ xs) i now e f h = absurd (omega arith)
clean_loop-IsTable (suc fuel) {t} pre [] i now e f h = rw stop h
  where
    stop : ltb i t.mc_node_count ≡ false
    stop = ground (arith, h.counted, length-append pre [])
clean_loop-IsTable (suc fuel) {t} pre (x ∷ xs) i now e f h =
    rw (more, cell-IsTable pre x xs i e h)
      (elim (Bool-cases (leb now (x.last_heartbeat + node_timeout))) [
        | inl fresh ↦
            rw (fresh, kept fresh)
              (subst (λ l. IsTable (clean_loop fuel (i + 1) now t) l) (append_assoc pre (x ∷ []) _)
                (clean_loop-IsTable fuel (pre ++ x ∷ []) xs (i + 1) now
                  (omega (arith, length-append pre (x ∷ []))) (omega arith)
                  (subst (λ l. IsTable t l) (sym (append_assoc pre (x ∷ []) xs)) h)))
        | inr old ↦
            rw (old, gone old)
              (clean_loop-IsTable fuel pre xs i now e (omega arith)
                (remove_node-IsTable pre x xs i e h))
      ])
  where
    more : ltb i t.mc_node_count ≡ true
    more = ground (arith, h.counted, length-append pre (x ∷ xs))

    kept :
        leb now (x.last_heartbeat + node_timeout) ≡ true
        → ltb (x.last_heartbeat + node_timeout) now ≡ false
    kept p = ground arith

    gone :
        leb now (x.last_heartbeat + node_timeout) ≡ false
        → ltb (x.last_heartbeat + node_timeout) now ≡ true
    gone p = ground arith

-- After `clean_timeout_mc_nodes` the table is well formed and holds exactly the peers heard of in
-- the last 15 seconds, in the order in which they stood; the loop bound suffices.
pub clean-survivors :
    {t : McTable} {live : List McNodeInfo} (now : ℕ)
    → IsTable t live
    → IsTable (clean_timeout_mc_nodes t now) (survivors now live)
unfolding clean_timeout_mc_nodes
clean-survivors {t} {live} now h =
    clean_loop-IsTable t.mc_node_count [] live 0 now refl (omega (arith, h.counted)) h
