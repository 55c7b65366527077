-- ===== src/Logger/Line.antt =====
-- The line that the logger writes, from the bytes of its buffer.
use mathlib.Core.List.{append_assoc}
use wtsl_app.Base.{
  ℕ, zero, suc, ◌+◌, ◌-◌, ◌≤◌, ◌<◌, false, some, List, [], ◌∷◌, ◌++◌, ◌≡◌, refl, ◌∙◌, sym, ap,
  arith, ltb, length, take, drop, set, Text, has_char, c_string, length-append, length-set,
  length-take, length-drop, take-append, take-length, set-append, Bool-cases, inl, inr, ltb→lt,
  le→leb,
}
use wtsl_app.Config.{newline}
use wtsl_app.Config.Lines.{has_char-cons, has_char-tail, has_char-append, c_string-append}
use wtsl_app.Logger.{print_at, finish_line, format_line}

has_char-take : (c n : ℕ) (s : List ℕ) → has_char c s ≡ false → has_char c (take n s) ≡ false
has_char-take c zero s h = refl
has_char-take c (suc n) [] h = refl
has_char-take c (suc n) (d ∷ s) h =
    rw (has_char-cons c d s h) (has_char-take c n s (has_char-tail c d s h))

at_least_of : (a b : ℕ) → ltb a b ≡ false → b ≤ a
at_least_of a b e = ground arith

take-front : (n : ℕ) (s t : List ℕ) → length s ≤ n → take n (s ++ t) ≡ s ++ take (n - length s) t
take-front n [] t le = ap (λ k. take k t) (omega arith)
take-front zero (c ∷ s) t le = absurd (omega arith)
take-front (suc n) (c ∷ s) t le =
    ap (λ l. c ∷ l) (take-front n s t (omega arith) ∙ ap (λ k. s ++ take k t) (omega arith))

drop-front : (s r : List ℕ) (n : ℕ) → drop (length s + n) (s ++ r) ≡ drop n r
drop-front [] r n = ap (λ k. drop k r) (omega arith)
drop-front (c ∷ s) r n =
    let e : length (c ∷ s) + n ≡ suc (length s + n) = omega arith in rw e (drop-front s r n)

-- A text and its terminator, printed behind s.
print_behind :
    (s r text : List ℕ) (i room : ℕ)
    → i ≡ length s
    → print_at (s ++ r) i (suc room) text
      ≡ (s ++ take room text) ++ 0 ∷ drop (length (take room text ++ 0 ∷ [])) r
print_behind s r text i room at =
    let t : List ℕ = take room text in
    let printed : List ℕ = t ++ 0 ∷ [] in
    let rest : List ℕ = drop (length printed) r in
    let kept : take i (s ++ r) ≡ s = ap (λ k. take k (s ++ r)) at ∙ take-append s r in
    let left : drop (i + length printed) (s ++ r) ≡ rest =
      ap (λ k. drop (k + length printed) (s ++ r)) at ∙ drop-front s r (length printed) in
    ap (λ k. k ++ (printed ++ drop (i + length printed) (s ++ r))) kept
    ∙ (ap (λ d. s ++ (printed ++ d)) left
        ∙ (ap (λ x. s ++ x) (append_assoc t (0 ∷ []) rest) ∙ sym (append_assoc s t (0 ∷ rest))))

-- The newline and the terminator behind s.
end_line :
    (s : List ℕ) (d e : ℕ) (r : List ℕ) (i : ℕ)
    → i ≡ length s
    → set (set (s ++ d ∷ e ∷ r) i newline) (i + 1) 0 ≡ (s ++ newline ∷ []) ++ 0 ∷ r
end_line s d e r i at =
    ap (λ b. set b (i + 1) 0) (set-append s (e ∷ r) i d newline at)
    ∙ (ap (λ b. set b (i + 1) 0) (sym (append_assoc s (newline ∷ []) (e ∷ r)))
        ∙ set-append (s ++ newline ∷ []) r (i + 1) e 0
            (omega (arith, length-append s (newline ∷ []))))

-- Both branches end the line behind what was printed.
ended :
    (s r : List ℕ)
    → length s + 1 + length r ≡ 4096
    → (i : ℕ) → i ≡ length s
    → i ≤ 4094
    → has_char 0 s ≡ false
    → c_string (set (set (s ++ 0 ∷ r) i newline) (i + 1) 0) ≡ s ++ newline ∷ []
ended s [] size i at le h = absurd (omega arith)
ended s (e ∷ r) size i at le h =
    ap c_string (end_line s 0 e r i at)
    ∙ c_string-append (s ++ newline ∷ []) r (has_char-append 0 s (newline ∷ []) h refl)

-- What is printed of a message in a buffer that the text in front of it fits.
printed :
    (b : List ℕ) (prefix content : Text)
    → length b ≡ 4096
    → length prefix ≤ 4094
    → (r : List ℕ) × (print_at
          (print_at b 0 4095 prefix)
          (length prefix)
          (4096 - length prefix - 1)
          content
        ≡ take 4094 (prefix ++ content) ++ 0 ∷ r)
      × (length (take 4094 (prefix ++ content)) + 1 + length r ≡ 4096)
printed b prefix content size fits =
    let room : ℕ = 4094 - length prefix in
    let first : List ℕ = 0 ∷ drop (length (take 4094 prefix ++ 0 ∷ [])) b in
    let more : List ℕ = take room content in
    let stage1 : print_at b 0 4095 prefix ≡ prefix ++ first =
      print_behind [] b prefix 0 4094 refl ∙ ap (λ t. t ++ first) (take-length 4094 prefix fits) in
    let joined : take 4094 (prefix ++ content) ≡ prefix ++ more =
      take-front 4094 prefix content fits in
    let size1 : length first ≡ 4096 - length prefix = omega (
      arith,
      size,
      length-drop (length (take 4094 prefix ++ 0 ∷ [])) b,
      length-append (take 4094 prefix) (0 ∷ []),
      ap length (take-length 4094 prefix fits),
    ) in
    let one_more : 4096 - length prefix - 1 ≡ suc room = omega arith in
    (
      drop (length (more ++ 0 ∷ [])) first,
      ap (λ x. print_at x (length prefix) (4096 - length prefix - 1) content) stage1
          ∙ (ap (λ k. print_at (prefix ++ first) (length prefix) k content) one_more
              ∙ (print_behind prefix first content (length prefix) room refl
                  ∙ ap (λ t. t ++ 0 ∷ drop (length (more ++ 0 ∷ [])) first) (sym joined))),
      omega (
        arith,
        size1,
        ap length joined,
        length-append prefix more,
        length-take room content,
        length-append more (0 ∷ []),
        length-drop (length (more ++ 0 ∷ [])) first,
      ),
    )

length-two_sets : (b : List ℕ) (i j v w : ℕ) → length b ≡ 4096 → length (set (set b i v) j w) ≡ 4096
length-two_sets b i j v w size = length-set (set b i v) j w ∙ (length-set b i v ∙ size)

finish_line-cut :
    (text r : List ℕ)
    → length (take 4094 text) + 1 + length r ≡ 4096
    → has_char 0 text ≡ false
    → (c_string (finish_line (length text) (take 4094 text ++ 0 ∷ r))
        ≡ take 4094 text ++ newline ∷ [])
      × (length (finish_line (length text) (take 4094 text ++ 0 ∷ r)) ≡ 4096)
finish_line-cut text r size h =
    let s : List ℕ = take 4094 text in
    let no_zero : has_char 0 s ≡ false = has_char-take 0 4094 text h in
    let whole : length (s ++ 0 ∷ r) ≡ 4096 = omega (arith, size, length-append s (0 ∷ r)) in
    elim (Bool-cases (ltb (length text) 4094)) [
      | inl short ↦
          let lt : length text < 4094 = ltb→lt (length text) 4094 short in
          let same : length text ≡ length s = omega (arith, length-take 4094 text) in
          rw short (
            ended s r size (length text) same (omega arith) no_zero,
            length-two_sets (s ++ 0 ∷ r) (length text) (length text + 1) newline 0 whole,
          )
      | inr long ↦
          let le : 4094 ≤ length text = at_least_of (length text) 4094 long in
          let same : 4094 ≡ length s = omega (arith, length-take 4094 text) in
          rw long (
            ended s r size 4094 same (omega arith) no_zero,
            length-two_sets (s ++ 0 ∷ r) 4094 4095 newline 0 whole,
          )
    ]

-- For a text in front of at most 4094 characters, every write of the logger stays within its buffer of
-- 4096 bytes, whatever the buffer held. The line is that text and the message behind it, cut after
-- 4094 characters if they are more, and a newline.
pub format_line-cut :
    (b : List ℕ) (prefix content : Text)
    → length b ≡ 4096
    → length prefix ≤ 4094
    → has_char 0 prefix ≡ false
    → has_char 0 content ≡ false
    → (b' : List ℕ) × (format_line b prefix content ≡ some b')
      × (c_string b' ≡ take 4094 (prefix ++ content) ++ newline ∷ [])
      × (length b' ≡ 4096)
unfolding format_line
format_line-cut b prefix content size fits np nc =
    let text : List ℕ = prefix ++ content in
    let (r, run, count) = printed b prefix content size fits in
    let (line, whole) = finish_line-cut text r count (has_char-append 0 prefix content np nc) in
    let total : length prefix + length content ≡ length text = sym (length-append prefix content) in
    (
      finish_line (length text) (take 4094 text ++ 0 ∷ r),
      rw (le→leb (length prefix) 4095 (omega arith)) (
          ap (λ p. some (finish_line (length prefix + length content) p)) run
          ∙ ap (λ n. some (finish_line n (take 4094 text ++ 0 ∷ r))) total),
      line,
      whole,
    )
