-- ===== src/Upload/Checksum.antt =====
-- What the checksum of a frame detects.
use Prim.Native.Nat.{bit_xor}
use wtsl_app.Base.{ℕ, ◌<◌, ◌≡◌, ◌≢◌, refl, sym, ap, ◌∙◌, List, [], ◌∷◌, ◌++◌, arith}
use wtsl_app.Base.Bits.{xor_cancel, xor_comm, xor_self, xor-lt}
use wtsl_app.Upload.{checksum_loop, calculate_checksum}

xor-injective : (a b c : ℕ) → bit_xor a c ≡ bit_xor b c → a ≡ b
xor-injective a b c h = sym (xor_cancel a c) ∙ ap (λ d. bit_xor d c) h ∙ xor_cancel b c

checksum_loop-injective : (a b : ℕ) (cs : List ℕ) → checksum_loop a cs ≡ checksum_loop b cs → a ≡ b
unfolding checksum_loop
checksum_loop-injective a b [] h = h
checksum_loop-injective a b (c ∷ cs) h =
    xor-injective a b c (checksum_loop-injective (bit_xor a c) (bit_xor b c) cs h)

checksum_loop-append :
    (a : ℕ) (xs ys : List ℕ) → checksum_loop a (xs ++ ys) ≡ checksum_loop (checksum_loop a xs) ys
unfolding checksum_loop
checksum_loop-append a [] ys = refl
checksum_loop-append a (x ∷ xs) ys = checksum_loop-append (bit_xor a x) xs ys

same_byte :
    (xs : List ℕ) (c d : ℕ) (ys : List ℕ)
    → calculate_checksum (xs ++ c ∷ ys) ≡ calculate_checksum (xs ++ d ∷ ys)
    → c ≡ d
unfolding calculate_checksum checksum_loop
same_byte xs c d ys h = xor-injective c d (checksum_loop 0 xs) (
    xor_comm c _
    ∙ checksum_loop-injective _ _ ys
        (sym (checksum_loop-append 0 xs (c ∷ ys)) ∙ h ∙ checksum_loop-append 0 xs (d ∷ ys))
    ∙ xor_comm _ d)

-- Two byte sequences that differ in exactly one place have different checksums: a single damaged
-- byte is always noticed.
pub checksum_detects_byte :
    (xs : List ℕ) (c d : ℕ) (ys : List ℕ)
    → c ≢ d
    → calculate_checksum (xs ++ c ∷ ys) ≢ calculate_checksum (xs ++ d ∷ ys)
checksum_detects_byte xs c d ys apart h = apart (same_byte xs c d ys h)

-- A receiver that folds the checksum in gets 0.
pub checksum_closes : (xs : List ℕ) → calculate_checksum (xs ++ calculate_checksum xs ∷ []) ≡ 0
unfolding calculate_checksum checksum_loop
checksum_closes xs = checksum_loop-append 0 xs _ ∙ xor_self (checksum_loop 0 xs)

abbrev pub AllBytes : List ℕ → Type 0
AllBytes [] = Unit
AllBytes (c ∷ cs) = (c < 256) × AllBytes cs

checksum_loop-lt : (a : ℕ) (xs : List ℕ) → a < 256 → AllBytes xs → checksum_loop a xs < 256
unfolding checksum_loop
checksum_loop-lt a [] h all = h
checksum_loop-lt a (x ∷ xs) h all = checksum_loop-lt (bit_xor a x) xs (xor-lt 8 a x h all.0) all.1

-- The checksum of bytes is a byte.
pub checksum-lt : (xs : List ℕ) → AllBytes xs → calculate_checksum xs < 256
unfolding calculate_checksum
checksum-lt xs all = checksum_loop-lt 0 xs (omega arith) all
