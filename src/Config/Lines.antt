-- ===== src/Config/Lines.antt =====
-- A text file of lines, and what fgets delivers of it.
use wtsl_app.Base.{
  ℕ, ◌-◌, ◌<◌, ◌≡◌, refl, sym, ap, ◌∙◌, false, List, [], ◌∷◌, ◌++◌, arith, leb, ◌==◌, length, Text,
  has_char, c_string,
}
use mathlib.Core.List.{append_assoc}
use wtsl_app.Config.{newline, line_room, in_first, fgets_lines}

-- A line that one call of fgets delivers whole.
pub record IsLine (line : Text) : Type 0 where
  pub body : Text
  pub ends : line ≡ body ++ newline ∷ []
  pub one_line : has_char newline body ≡ false
  pub no_zero : has_char 0 body ≡ false
  pub fits : length body < line_room

abbrev pub AllLines : List Text → Type 0
AllLines [] = Unit
AllLines (line ∷ lines) = IsLine line × AllLines lines

abbrev pub flatten : List Text → List ℕ
flatten [] = []
flatten (line ∷ lines) = line ++ flatten lines

pub has_char-cons : (d c : ℕ) (s : Text) → has_char d (c ∷ s) ≡ false → (c == d) ≡ false
has_char-cons d c s h = ground arith

pub has_char-tail : (d c : ℕ) (s : Text) → has_char d (c ∷ s) ≡ false → has_char d s ≡ false
has_char-tail d c s h = ground arith

pub fgets_lines-line :
    (body rest : List ℕ) (room : ℕ)
    → has_char newline body ≡ false
    → length body < room
    → fgets_lines room ((body ++ newline ∷ []) ++ rest)
      ≡ (body ++ newline ∷ []) ∷ fgets_lines line_room rest
unfolding fgets_lines
fgets_lines-line [] rest room h l = refl
fgets_lines-line (c ∷ body) rest room h l =
    let same : (c == newline) ≡ false = has_char-cons newline c body h in
    let more : leb room 1 ≡ false = ground (arith, l) in
    let rest_fits : length body < room - 1 = omega (arith, l) in
    rw (same, more)
      (ap (in_first c)
        (fgets_lines-line body rest (room - 1) (has_char-tail newline c body h) rest_fits))

pub c_string-append :
    (s : Text) (rest : List ℕ) → has_char 0 s ≡ false → c_string (s ++ 0 ∷ rest) ≡ s
unfolding c_string
c_string-append [] rest h = refl
c_string-append (c ∷ s) rest h =
    rw (has_char-cons 0 c s h) (ap (λ t. c ∷ t) (c_string-append s rest (has_char-tail 0 c s h)))

pub c_string-text : (s : Text) → has_char 0 s ≡ false → c_string s ≡ s
unfolding c_string
c_string-text [] h = refl
c_string-text (c ∷ s) h =
    rw (has_char-cons 0 c s h) (ap (λ t. c ∷ t) (c_string-text s (has_char-tail 0 c s h)))

pub has_char-append :
    (d : ℕ) (s t : Text) → has_char d s ≡ false → has_char d t ≡ false → has_char d (s ++ t) ≡ false
has_char-append d [] t h k = k
has_char-append d (c ∷ s) t h k =
    rw (has_char-cons d c s h) (has_char-append d s t (has_char-tail d c s h) k)

-- The C string of a line is the line.
pub c_string-line : (line : Text) → IsLine line → c_string line ≡ line
c_string-line line h =
    ap c_string h.ends
    ∙ c_string-text (h.body ++ newline ∷ [])
        (has_char-append 0 h.body (newline ∷ []) h.no_zero refl)
    ∙ sym h.ends

pub fgets_lines-flatten :
    (lines : List Text) → AllLines lines → fgets_lines line_room (flatten lines) ≡ lines
unfolding fgets_lines
fgets_lines-flatten [] a = refl
fgets_lines-flatten (line ∷ lines) (h, a) =
    ap (λ l. fgets_lines line_room (l ++ flatten lines)) h.ends
    ∙ fgets_lines-line h.body (flatten lines) line_room h.one_line h.fits
    ∙ ap (λ l. l ∷ fgets_lines line_room (flatten lines)) (sym h.ends)
    ∙ ap (λ ls. line ∷ ls) (fgets_lines-flatten lines a)

pub flatten-append : (xs ys : List Text) → flatten (xs ++ ys) ≡ flatten xs ++ flatten ys
flatten-append [] ys = refl
flatten-append (x ∷ xs) ys =
    rw (flatten-append xs ys) (sym (append_assoc x (flatten xs) (flatten ys)))

pub AllLines-append : (xs ys : List Text) → AllLines xs → AllLines ys → AllLines (xs ++ ys)
AllLines-append [] ys a b = b
AllLines-append (x ∷ xs) ys (h, a) b = (h, AllLines-append xs ys a b)
