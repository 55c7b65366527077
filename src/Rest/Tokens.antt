-- ===== src/Rest/Tokens.antt =====
-- The tokens of a URL, and the URL of tokens.
use wtsl_app.Base.{
  ℕ, false, List, [], ◌∷◌, ◌++◌, ◌==◌, ◌≡◌, refl, ◌≢◌, ◌∙◌, ap, arith, Text, Bool-cases, inl, inr,
}
use mathlib.Core.List.{append-nil, append_assoc}
use wtsl_app.Rest.{close_token, tokens}

-- The URL with a slash in front of each word.
abbrev pub join : List Text → Text
join [] = []
join (w ∷ words) = 47 ∷ (w ++ join words)

abbrev pub NoSlash : Text → Type 0
NoSlash [] = Unit
NoSlash (c ∷ w) = (c ≢ 47) × NoSlash w

abbrev pub IsWord : Text → Type 0
IsWord w = (w ≢ []) × NoSlash w

abbrev pub AllWords : List Text → Type 0
AllWords [] = Unit
AllWords (w ∷ words) = IsWord w × AllWords words

not_slash : (c : ℕ) → c ≢ 47 → (c == 47) ≡ false
not_slash c h = ground arith

slash_less : (c : ℕ) → (c == 47) ≡ false → c ≢ 47
slash_less c h = ground arith

-- A word is read to its end.
tokens_word : (word w url : Text) → NoSlash w → tokens word (w ++ url) ≡ tokens (word ++ w) url
tokens_word word [] url h = rw append-nil refl
tokens_word word (c ∷ w) url (ne, h) =
    rw (not_slash c ne)
      (tokens_word (word ++ c ∷ []) w url h ∙ ap (λ v. tokens v url) (append_assoc word (c ∷ []) w))

-- Behind a word stands the rest.
tokens_behind :
    (w : Text) (words : List Text) → w ≢ [] → tokens w (join words) ≡ w ∷ tokens [] (join words)
tokens_behind [] words h = absurd (h refl)
tokens_behind (c ∷ w) [] h = refl
tokens_behind (c ∷ w) (v ∷ words) h = refl

-- The tokens of a URL made of words are those words.
pub tokens-join : (words : List Text) → AllWords words → tokens [] (join words) ≡ words
tokens-join [] h = refl
tokens-join (w ∷ words) ((ne, slashes), h) =
    tokens_word [] w (join words) slashes
    ∙ tokens_behind w words ne
    ∙ ap (λ ws. w ∷ ws) (tokens-join words h)

NoSlash-append : (v : Text) (c : ℕ) → NoSlash v → c ≢ 47 → NoSlash (v ++ c ∷ [])
NoSlash-append [] c h ne = (ne, tt)
NoSlash-append (d ∷ v) c (nd, h) ne = (nd, NoSlash-append v c h ne)

close_token-AllWords :
    (w : Text) (words : List Text) → NoSlash w → AllWords words → AllWords (close_token w words)
close_token-AllWords [] words h all = all
close_token-AllWords (c ∷ w) words h all = (((λ e. cc), h), all)

AllWords-tokens : (w url : Text) → NoSlash w → AllWords (tokens w url)
AllWords-tokens w [] h = close_token-AllWords w [] h tt
AllWords-tokens w (c ∷ url) h = elim (Bool-cases (c == 47)) [
  | inl is ↦ rw is (close_token-AllWords w (tokens [] url) h (AllWords-tokens [] url tt))
  | inr is ↦ rw is (AllWords-tokens (w ++ c ∷ []) url (NoSlash-append w c h (slash_less c is)))
]

-- Whatever the URL is, its tokens are words, not empty and without slashes, and the URL made of them
-- has the same tokens.
pub tokens-AllWords :
    (url : Text) → AllWords (tokens [] url) × (tokens [] (join (tokens [] url)) ≡ tokens [] url)
tokens-AllWords url = let all = AllWords-tokens [] url tt in (all, tokens-join (tokens [] url) all)
