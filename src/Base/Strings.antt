-- ===== src/Base/Strings.antt =====
-- C strings as lists of bytes without the terminating 0, and what strcmp, strncmp, strchr, strlen, strncpy
-- and strstr (as a prefix test) compute of them.
use Prim.Native.Nat.{ℕ, zero, suc, ◌+◌, ◌-◌}
use Prim.Native.Char.{code}
use Prim.Native.String.{String}
use mathlib.Core.Path.{◌≡◌, refl}
use mathlib.Core.Logic.{◌↔◌}
use mathlib.Core.Bool.{Bool, true, false, ◌&&◌}
use mathlib.Core.List.{List, [], ◌∷◌}
use native.Mathlib.Omega.{arith}
use wtsl_app.Base.Tests.{◌==◌, leb, if◌then◌else◌}

abbrev pub Text : Type 0
Text = List ℕ

-- The bytes of a literal (all of them ASCII in the program).
abbrev pub codes : String → Text
codes String.[] = []
codes (String.◌∷◌ c s) = code c ∷ codes s

-- `strcmp(s, t) == 0`
abbrev pub text_eq : Text → Text → Bool
text_eq [] [] = true
text_eq [] (d ∷ t) = false
text_eq (c ∷ s) [] = false
text_eq (c ∷ s) (d ∷ t) = (c == d) && text_eq s t

pub text_eq_refl : (s : Text) → text_eq s s ≡ true
text_eq_refl [] = refl
text_eq_refl (c ∷ s) = ground (arith, text_eq_refl s)

pub eq_of_text_eq : (s t : Text) → text_eq s t ≡ true → s ≡ t
eq_of_text_eq [] [] h = refl
eq_of_text_eq [] (d ∷ t) h = cc
eq_of_text_eq (c ∷ s) [] h = cc
eq_of_text_eq (c ∷ s) (d ∷ t) h = ground (arith, eq_of_text_eq s t)

pub text_eq_iff : (s t : Text) → (text_eq s t ≡ true) ↔ (s ≡ t)
text_eq_iff s t = (eq_of_text_eq s t, λ e. rw e (text_eq_refl t))

-- `strstr(s, p) == s`
abbrev pub starts_with : Text → Text → Bool
starts_with [] s = true
starts_with (c ∷ p) [] = false
starts_with (c ∷ p) (d ∷ s) = (c == d) && starts_with p s

-- `strncmp(s, t, n) == 0`
abbrev pub strncmp_eq : Text → Text → ℕ → Bool
strncmp_eq s t zero = true
strncmp_eq [] [] (suc n) = true
strncmp_eq [] (d ∷ t) (suc n) = false
strncmp_eq (c ∷ s) [] (suc n) = false
strncmp_eq (c ∷ s) (d ∷ t) (suc n) = (c == d) && strncmp_eq s t n

-- `strchr(s, c) != NULL`
abbrev pub has_char : ℕ → Text → Bool
has_char c [] = false
has_char c (d ∷ s) = if d == c then true else has_char c s

-- `strstr(s, p) != NULL`
abbrev pub contains : Text → Text → Bool
contains p [] = starts_with p []
contains p (c ∷ s) = if starts_with p (c ∷ s) then true else contains p s

-- The C string at the start of a buffer: the bytes before the first 0.
unfoldable pub c_string : List ℕ → Text
c_string [] = []
c_string (c ∷ s) = let rest = c_string s in if c == 0 then [] else c ∷ rest

-- tolower and toupper in the C locale
abbrev pub to_lower : ℕ → ℕ
to_lower c = if leb 65 c && leb c 90 then c + 32 else c

abbrev pub to_upper : ℕ → ℕ
to_upper c = if leb 97 c && leb c 122 then c - 32 else c
