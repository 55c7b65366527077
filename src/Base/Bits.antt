-- ===== src/Base/Bits.antt =====
-- The C operators `&`, `|` and `^` at variables. Each is first reduced to its lowest digit; the
-- laws that the program relies on (masks, disjoint fields, cancellation) follow by halving.
use Prim.Native.Nat.{
  ℕ, zero, suc, ◌+◌, ◌-◌, ◌*◌, ◌/◌, ◌%◌, ◌^◌, ◌≤◌, ◌<◌, min, max, differ, digits, bitwise, bit_and,
  bit_or, bit_xor, bit_and-bitwise, bit_or-bitwise, bit_xor-bitwise,
}
use mathlib.Core.Path.{◌≡◌, refl, ap, ap₂, ◌∙◌}
use native.Mathlib.Omega.{arith}
use native.Mathlib.Nat.{pow-suc}

module _ (pad : ℕ → ℕ) (digit : ℕ → ℕ → ℕ) where
  -- Fuel beyond the first operand changes nothing.
  enough_digits :
      (a b : ℕ) (k j : ℕ) → a ≤ k → a ≤ j → digits pad digit k a b ≡ digits pad digit j a b
  enough_digits zero b zero zero p q = refl
  enough_digits zero b zero (suc j) p q = refl
  enough_digits zero b (suc k) zero p q = refl
  enough_digits zero b (suc k) (suc j) p q = refl
  enough_digits (suc a) b zero j p q = absurd (omega arith)
  enough_digits (suc a) b (suc k) zero p q = absurd (omega arith)
  enough_digits (suc a) b (suc k) (suc j) p q =
      rw (enough_digits (suc a / 2) (b / 2) k j (omega arith) (omega arith))

  lowest_digit :
      (a b : ℕ)
      → bitwise pad digit (suc a) b
        ≡ bitwise pad digit (suc a / 2) (b / 2) * 2 + digit (suc a % 2) (b % 2)
  lowest_digit a b =
      omega (arith, enough_digits (suc a / 2) (b / 2) a (suc a / 2) (omega arith) (omega arith))

differ_bits : (x y : ℕ) → x < 2 → y < 2 → differ x y ≡ (x + y) % 2
differ_bits zero zero p q = refl
differ_bits zero (suc zero) p q = refl
differ_bits (suc zero) zero p q = refl
differ_bits (suc zero) (suc zero) p q = refl
differ_bits (suc (suc x)) y p q = absurd (omega arith)
differ_bits zero (suc (suc y)) p q = absurd (omega arith)
differ_bits (suc zero) (suc (suc y)) p q = absurd (omega arith)

and_digit : (a b : ℕ) → bit_and a b ≡ bit_and (a / 2) (b / 2) * 2 + min (a % 2) (b % 2)
and_digit zero b = omega (arith, bit_and-bitwise 0 b, bit_and-bitwise 0 (b / 2))
and_digit (suc a) b = omega (
  arith,
  bit_and-bitwise (suc a) b,
  bit_and-bitwise (suc a / 2) (b / 2),
  lowest_digit (λ b. zero) min a b,
)

or_digit : (a b : ℕ) → bit_or a b ≡ bit_or (a / 2) (b / 2) * 2 + max (a % 2) (b % 2)
or_digit zero b = omega (arith, bit_or-bitwise 0 b, bit_or-bitwise 0 (b / 2))
or_digit (suc a) b = omega (
  arith,
  bit_or-bitwise (suc a) b,
  bit_or-bitwise (suc a / 2) (b / 2),
  lowest_digit (λ b. b) max a b,
)

xor_digit : (a b : ℕ) → bit_xor a b ≡ bit_xor (a / 2) (b / 2) * 2 + (a + b) % 2
xor_digit zero b = omega (arith, bit_xor-bitwise 0 b, bit_xor-bitwise 0 (b / 2))
xor_digit (suc a) b = omega (
  arith,
  bit_xor-bitwise (suc a) b,
  bit_xor-bitwise (suc a / 2) (b / 2),
  lowest_digit (λ b. b) differ a b,
  differ_bits (suc a % 2) (b % 2) (omega arith) (omega arith),
)

pub bit_and-zero : (a : ℕ) → bit_and a 0 ≡ 0
bit_and-zero a = halve a a (omega arith)
  where
    halve : (k a : ℕ) → a ≤ k → bit_and a 0 ≡ 0
    halve k zero h = refl
    halve zero (suc a) h = absurd (omega arith)
    halve (suc k) (suc a) h = omega (arith, and_digit (suc a) 0, halve k (suc a / 2) (omega arith))

pow_pos : (k : ℕ) → 0 < 2 ^ k
pow_pos zero = omega arith
pow_pos (suc k) = omega (arith, pow_pos k, pow-suc 2 k)

times_pow-suc : (q k : ℕ) → q * 2 ^ suc k ≡ q * 2 ^ k * 2
times_pow-suc q k = omega (arith, ap (λ (t : ℕ). q * t) (pow-suc 2 k))

and_mask_of_parts : (k q r : ℕ) → r < 2 ^ k → bit_and (q * 2 ^ k + r) (2 ^ k - 1) ≡ r
and_mask_of_parts zero q r h = bit_and-zero (q * 1 + r) ∙ omega arith
and_mask_of_parts (suc k) q r h = omega (
  arith,
  and_digit (q * 2 ^ suc k + r) (2 ^ suc k - 1),
  times_pow-suc q k,
  pow-suc 2 k,
  pow_pos k,
  ap₂ bit_and halved mask_halved ∙ and_mask_of_parts k q (r / 2) (omega (arith, pow-suc 2 k)),
)
  where
    halved : (q * 2 ^ suc k + r) / 2 ≡ q * 2 ^ k + r / 2
    halved = omega (arith, times_pow-suc q k)

    mask_halved : (2 ^ suc k - 1) / 2 ≡ 2 ^ k - 1
    mask_halved = omega (arith, pow-suc 2 k, pow_pos k)

-- `x & (2^k - 1)` is the remainder.
pub bit_and-mask : (k x : ℕ) → bit_and x (2 ^ k - 1) ≡ x % 2 ^ k
bit_and-mask k x =
    ap (λ y. bit_and y (2 ^ k - 1)) parts
    ∙ and_mask_of_parts k (x / 2 ^ k) (x % 2 ^ k) (grind (arith, pow_pos k))
  where
    parts : x ≡ x / 2 ^ k * 2 ^ k + x % 2 ^ k
    parts = grind (arith, pow_pos k)

-- A low field of `k` bits under a field shifted by `k`.
pub bit_or-shifted : (k lo hi : ℕ) → lo < 2 ^ k → bit_or lo (hi * 2 ^ k) ≡ lo + hi * 2 ^ k
bit_or-shifted zero lo hi h =
    let e : lo ≡ 0 = omega arith in rw e (omega (arith, bit_or-bitwise 0 (hi * 1)))
bit_or-shifted (suc k) lo hi h = omega (
  arith,
  or_digit lo (hi * 2 ^ suc k),
  times_pow-suc hi k,
  ap (λ m. bit_or (lo / 2) m) halved ∙ bit_or-shifted k (lo / 2) hi (omega (arith, pow-suc 2 k)),
)
  where
    halved : hi * 2 ^ suc k / 2 ≡ hi * 2 ^ k
    halved = omega (arith, times_pow-suc hi k)

xor_half : (a b : ℕ) → bit_xor a b / 2 ≡ bit_xor (a / 2) (b / 2)
xor_half a b = omega (arith, xor_digit a b)

pub xor_comm : (a b : ℕ) → bit_xor a b ≡ bit_xor b a
xor_comm a b = halve (a + b) a b (omega arith)
  where
    halve : (k a b : ℕ) → a + b ≤ k → bit_xor a b ≡ bit_xor b a
    halve zero zero zero h = refl
    halve zero zero (suc b) h = absurd (omega arith)
    halve zero (suc a) b h = absurd (omega arith)
    halve (suc k) a b h =
        omega (arith, xor_digit a b, xor_digit b a, halve k (a / 2) (b / 2) (omega arith))

-- Exclusive or with the same number twice gives the first back.
pub xor_cancel : (a b : ℕ) → bit_xor (bit_xor a b) b ≡ a
xor_cancel a b = halve (a + b) a b (omega arith)
  where
    halve : (k a b : ℕ) → a + b ≤ k → bit_xor (bit_xor a b) b ≡ a
    halve zero zero zero h = refl
    halve zero zero (suc b) h = absurd (omega arith)
    halve zero (suc a) b h = absurd (omega arith)
    halve (suc k) a b h = omega (
      arith,
      xor_digit (bit_xor a b) b,
      xor_digit a b,
      ap (λ c. bit_xor c (b / 2)) (xor_half a b) ∙ halve k (a / 2) (b / 2) (omega arith),
    )

pub xor_self : (a : ℕ) → bit_xor a a ≡ 0
xor_self a = halve a a (omega arith)
  where
    halve : (k a : ℕ) → a ≤ k → bit_xor a a ≡ 0
    halve k zero h = refl
    halve zero (suc a) h = absurd (omega arith)
    halve (suc k) (suc a) h =
        omega (arith, xor_digit (suc a) (suc a), halve k (suc a / 2) (omega arith))

-- Exclusive or of `k`-bit numbers has `k` bits.
pub xor-lt : (k a b : ℕ) → a < 2 ^ k → b < 2 ^ k → bit_xor a b < 2 ^ k
xor-lt zero zero zero h l = omega arith
xor-lt zero zero (suc b) h l = absurd (omega arith)
xor-lt zero (suc a) b h l = absurd (omega arith)
xor-lt (suc k) a b h l = omega (
  arith,
  xor_digit a b,
  pow-suc 2 k,
  xor-lt k (a / 2) (b / 2) (omega (arith, pow-suc 2 k)) (omega (arith, pow-suc 2 k)),
)
