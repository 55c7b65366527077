-- ===== src/Config/Trim.antt =====
-- What trim_whitespace leaves of a line that consists of a key, `=`, a value and a newline.
use wtsl_app.Base.{
  ℕ, ◌+◌, ◌≤◌, ◌≡◌, refl, sym, ap, ◌∙◌, true, false, [], ◌∷◌, ◌++◌, inl, inr, arith, Bool-cases,
  length, Text,
}
use wtsl_app.Config.{
  is_space, trim_left, trim_right, keep_or_drop, trim_whitespace, newline, equals_sign,
  printed_entry,
}

length-trim_left : (s : Text) → length (trim_left s) ≤ length s
unfolding trim_left
length-trim_left [] = omega arith
length-trim_left (c ∷ s) = ground (arith, length-trim_left s)

length-keep_or_drop : (c : ℕ) (s : Text) → length (keep_or_drop c s) ≤ length s + 1
length-keep_or_drop c [] = ground arith
length-keep_or_drop c (d ∷ s) = omega arith

length-trim_right : (s : Text) → length (trim_right s) ≤ length s
unfolding trim_right
length-trim_right [] = omega arith
length-trim_right (c ∷ s) = omega (arith, length-keep_or_drop c (trim_right s), length-trim_right s)

length-trim_whitespace : (s : Text) → length (trim_whitespace s) ≤ length (trim_left s)
unfolding trim_whitespace
length-trim_whitespace s = length-trim_right (trim_left s)

-- A trimmed text begins with no white space.
first_kept : (c : ℕ) (s : Text) → trim_whitespace (c ∷ s) ≡ c ∷ s → is_space c ≡ false
unfolding trim_left
first_kept c s e = elim (Bool-cases (is_space c)) [
  | inl h ↦
      let short : trim_left (c ∷ s) ≡ trim_left s = rw h refl in
      absurd (
        omega
          (arith, length-trim_whitespace (c ∷ s), ap length e, ap length short, length-trim_left s))
  | inr h ↦ h
]

trim_left-trimmed : (s : Text) → trim_whitespace s ≡ s → trim_left s ≡ s
unfolding trim_left
trim_left-trimmed [] e = refl
trim_left-trimmed (c ∷ s) e = rw (first_kept c s e) refl

trim_right-trimmed : (s : Text) → trim_whitespace s ≡ s → trim_right s ≡ s
unfolding trim_whitespace
trim_right-trimmed s e = sym (ap trim_right (trim_left-trimmed s e)) ∙ e

trim_right-append :
    (xs ys zs : Text) (y : ℕ) → trim_right ys ≡ y ∷ zs → trim_right (xs ++ ys) ≡ xs ++ y ∷ zs
unfolding trim_right
trim_right-append [] ys zs y e = e
trim_right-append (x ∷ []) ys zs y e = rw e refl
trim_right-append (x ∷ x' ∷ xs) ys zs y e = rw (trim_right-append (x' ∷ xs) ys zs y e) refl

trim_right-space :
    (xs : Text) (c : ℕ) → is_space c ≡ true → trim_right (xs ++ c ∷ []) ≡ trim_right xs
unfolding trim_right
trim_right-space [] c h = rw h refl
trim_right-space (x ∷ xs) c h = rw (trim_right-space xs c h) refl

-- What begins with a character other than white space keeps it.
trim_right-kept : (c : ℕ) (s : Text) → is_space c ≡ false → trim_right (c ∷ s) ≡ c ∷ trim_right s
unfolding trim_right
trim_right-kept c s h = kept (trim_right s)
  where
    kept : (r : Text) → keep_or_drop c r ≡ c ∷ r
    kept [] = rw h refl
    kept (d ∷ r) = refl

newline-space : is_space newline ≡ true
unfolding is_space
newline-space = refl

equals-kept : is_space equals_sign ≡ false
unfolding is_space
equals-kept = refl

trim_right-equals :
    (value : Text)
    → trim_whitespace value ≡ value
    → trim_right (equals_sign ∷ value) ≡ equals_sign ∷ value
trim_right-equals value v =
    trim_right-kept equals_sign value equals-kept
    ∙ ap (λ s. equals_sign ∷ s) (trim_right-trimmed value v)

-- The line that config_set prints, up to its newline.
pub trim_whitespace-printed :
    (c : ℕ) (key value : Text)
    → trim_whitespace (c ∷ key) ≡ c ∷ key
    → trim_whitespace value ≡ value
    → trim_whitespace (printed_entry (c ∷ key) value) ≡ (c ∷ key) ++ equals_sign ∷ value
unfolding trim_whitespace trim_left
trim_whitespace-printed c key value k v =
    let tail : trim_right (equals_sign ∷ value ++ newline ∷ []) ≡ equals_sign ∷ value =
      trim_right-space (equals_sign ∷ value) newline newline-space ∙ trim_right-equals value v in
    rw (first_kept c key k) (trim_right-append (c ∷ key) _ value equals_sign tail)
