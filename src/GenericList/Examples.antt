-- ===== src/GenericList/Examples.antt =====
-- Examples and tests of the list.
use wtsl_app.Base.{
  arith, ℕ, true, none, some, List, [], ◌∷◌, ◌==◌, ◌≡◌, refl, get_elem?, Text, codes,
}
use wtsl_app.Nodes.{Ptr, null, Run, ◌>>=◌}
use wtsl_app.Nodes.Links.{ne_of_false}
use wtsl_app.Rest.{tokens}
use wtsl_app.GenericList.{
  Memory, LinkedList, list_create, list_insert_at, list_insert_head, list_get, list_traverse,
  list_remove_tail, list_remove_by_value, list_remove_at,
}
use wtsl_app.GenericList.Chain.{IsList}
use wtsl_app.GenericList.Remove.{remove_nth, address_at, remove_at-IsList}
use wtsl_app.GenericList.Tokens.{fill, Fresh, filled-tokens}

abbrev memory : Memory Text
memory p = none

abbrev url : Text
url = codes "/a/b"

abbrev placed_words : List (Ptr × Text)
placed_words = (3, codes "a") ∷ (5, codes "b") ∷ []

placed-Fresh : Fresh placed_words
placed-Fresh = (ne_of_false 3 0 refl, (ne_of_false 3 5 refl, tt), (ne_of_false 5 0 refl, tt, tt))

filled-tokens_example :
    (l : LinkedList Text) × (fill placed_words (list_create memory) ≡ Run.value l)
    × (list_get l 1 ≡ Run.value (get_elem? (tokens [] url) 1))
filled-tokens_example = filled-tokens memory url placed_words 1 placed-Fresh refl

abbrev numbers : Memory ℕ
numbers p = none

abbrev both_inserted : LinkedList ℕ
both_inserted = list_insert_head (list_insert_head (list_create numbers) 2 20) 4 10

middle_inserted :
    (list_insert_at both_inserted 1 6 15 >>= λ (ok, l). list_traverse l)
    ≡ Run.value (10 ∷ 15 ∷ 20 ∷ [])
unfolding list_create list_insert_head list_insert_at list_traverse
middle_inserted = refl

last_removed : (list_remove_tail both_inserted >>= λ (ok, l). list_traverse l) ≡ Run.value (10 ∷ [])
unfolding list_create list_insert_head list_remove_tail list_traverse
last_removed = refl

value_removed :
    (list_remove_by_value both_inserted (λ n. n == 10) >>= λ (ok, l). list_traverse l)
    ≡ Run.value (20 ∷ [])
unfolding list_create list_insert_head list_remove_by_value list_traverse
value_removed = refl

-- Without memory, an insertion at the head reports success.
head_without_memory :
    list_insert_at (list_create numbers) 0 null 7 ≡ Run.value (true, list_create numbers)
unfolding list_insert_at
head_without_memory = refl

two_cells-IsList : IsList both_inserted ((4, 10) ∷ (2, 20) ∷ [])
unfolding list_create list_insert_head
two_cells-IsList = record {
  chain = (
    refl,
    ne_of_false 4 0 refl,
    (ne_of_false 4 2 refl, tt),
    (2, refl, (refl, ne_of_false 2 0 refl, tt, (null, refl, refl))),
  );
  size_is_length = refl;
}

remove_at-IsList_example :
    (l' : LinkedList ℕ) × (a : Ptr) × (list_remove_at both_inserted 1 ≡ Run.value (true, l'))
    × (address_at {A = ℕ} 1 ((4, 10) ∷ (2, 20) ∷ []) ≡ some a)
    × (l'.heap a ≡ none)
    × IsList l' (remove_nth 1 ((4, 10) ∷ (2, 20) ∷ []))
remove_at-IsList_example =
    remove_at-IsList both_inserted 1 ((4, 10) ∷ (2, 20) ∷ []) two_cells-IsList (omega arith)
