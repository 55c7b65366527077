-- ===== src/GenericList/Tokens.antt =====
-- The list of the tokens of a URL, which wtcoreapi_parse_http_get_cmd and wtcoreapi_parse_http_post_cmd
-- of src/wtsl_core/protocol/http/wtsl_core_http_restful_api.c fill with list_insert_tail.
use wtsl_app.Base.{
  ℕ, List, [], ◌∷◌, ◌++◌, ◌≡◌, refl, ◌≢◌, ap, ◌∙◌, sym, if◌then◌else◌, get_elem?, Text,
}
use mathlib.Core.Path.{subst}
use mathlib.Core.List.{append_assoc, append-nil}
use wtsl_app.Nodes.{Ptr, null, Run, ◌>>=◌}
use wtsl_app.Nodes.Links.{eq_false}
use wtsl_app.Rest.{tokens}
use wtsl_app.GenericList.{Memory, LinkedList, list_create, list_insert_tail, list_get}
use wtsl_app.GenericList.Chain.{Free, IsList, Free-append}
use wtsl_app.GenericList.Insert.{contents, insert_tail-IsList, list_get-get_elem}

-- The loop over the tokens, each with the address that malloc gives for it.
pub fill : List (Ptr × Text) → LinkedList Text → Run (LinkedList Text)
fill [] l = Run.value l
fill ((fresh, word) ∷ given) l = list_insert_tail l fresh word >>= fill given

-- The addresses are distinct, and none is NULL.
abbrev pub Fresh : List (Ptr × Text) → Type 0
Fresh [] = Unit
Fresh ((fresh, word) ∷ given) = (fresh ≢ null) × Free fresh given × Fresh given

-- The addresses are none of those cells.
abbrev Away : List (Ptr × Text) → List (Ptr × Text) → Type 0
Away [] cells = Unit
Away ((fresh, word) ∷ given) cells = Free fresh cells × Away given cells

Away-append :
    (given cells : List (Ptr × Text)) (a : Ptr) (w : Text)
    → Away given cells
    → Free a given
    → Away given (cells ++ (a, w) ∷ [])
Away-append [] cells a w away free = tt
Away-append ((fresh, word) ∷ given) cells a w (here, away) (ne, free) =
    (Free-append fresh cells a w here (λ k. ne (sym k)), Away-append given cells a w away free)

Away-nil : (given : List (Ptr × Text)) → Away given []
Away-nil [] = tt
Away-nil ((fresh, word) ∷ given) = (tt, Away-nil given)

fill-IsList :
    (given : List (Ptr × Text)) (l : LinkedList Text) (cells : List (Ptr × Text))
    → IsList l cells
    → Fresh given
    → Away given cells
    → (l' : LinkedList Text) × (fill given l ≡ Run.value l') × IsList l' (cells ++ given)
unfolding fill
fill-IsList [] l cells is fresh away = (l, refl, subst (IsList l) (sym (append-nil cells)) is)
fill-IsList ((a, w) ∷ given) l cells is (ok, free, fresh) (here, away) =
    let (l1, run, is1) = insert_tail-IsList l a w cells is here in
    let grown =
      subst (λ b. IsList l1 (if b then cells else cells ++ (a, w) ∷ [])) (eq_false a null ok) is1 in
    let (l2, more, is2) =
      fill-IsList given l1 (cells ++ (a, w) ∷ []) grown fresh
        (Away-append given cells a w away free) in
    (
      l2,
      ap (λ r. r >>= fill given) run ∙ more,
      subst (IsList l2) (append_assoc cells ((a, w) ∷ []) given) is2,
    )

-- With memory for the tokens of a URL, the loops that fill the list end, and list_get gives each token
-- at its index, and NULL behind the last one.
pub filled-tokens :
    (h : Memory Text) (url : Text) (given : List (Ptr × Text)) (index : ℕ)
    → Fresh given
    → contents given ≡ tokens [] url
    → (l : LinkedList Text) × (fill given (list_create h) ≡ Run.value l)
      × (list_get l index ≡ Run.value (get_elem? (tokens [] url) index))
unfolding list_create
filled-tokens h url given index fresh e =
    let (l, run, is) =
      fill-IsList given (list_create h) [] (record { chain = refl; size_is_length = refl }) fresh
        (Away-nil given) in
    (l, run, list_get-get_elem l given index is ∙ ap (λ words. Run.value (get_elem? words index)) e)
