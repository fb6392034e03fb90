-- ===== src/Common/Bits.antt =====
-- The native bit operations as arithmetic: masks are remainders, disjoint fields are sums, and
-- exclusive or undoes itself.
use Prim.Native.Nat.{
  ℕ, zero, suc, ◌+◌, ◌*◌, ◌/◌, ◌%◌, ◌^◌, ◌≤◌, ◌<◌, min, max, digits, bitwise, bit_and, bit_or,
  bit_xor, bit_and-bitwise, bit_or-bitwise, bit_xor-bitwise, differ,
}
use oklib.Common.Tests.{leb, Bool-cases}
use mathlib.Core.Logic.{inl, inr}
use mathlib.Core.Path.{◌≡◌, refl, ap, ◌∙◌}
use native.Mathlib.Omega.{arith}
use native.Mathlib.Nat.{pow-suc}

-- The operations recur on the digits under a bound, and no bound above the number changes them.
module _ (rest : ℕ → ℕ) (digit : ℕ → ℕ → ℕ) where
  one_spare : (k x y : ℕ) → x ≤ k → digits rest digit (suc k) x y ≡ digits rest digit k x y
  one_spare zero zero y h = refl
  one_spare (suc k) zero y h = refl
  one_spare zero (suc x) y h = absurd (omega arith)
  one_spare (suc k) (suc x) y h = rw (one_spare k (suc x / 2) (y / 2) (omega arith))

  any_bound : (k x y : ℕ) → x ≤ k → digits rest digit k x y ≡ bitwise rest digit x y
  any_bound zero zero y h = refl
  any_bound zero (suc x) y h = absurd (omega arith)
  any_bound (suc k) x y h = elim (Bool-cases (leb x k)) [
    | inl below ↦ one_spare k x y (ground (arith, below)) ∙ any_bound k x y (ground (arith, below))
    | inr above ↦ ap (λ j. digits rest digit j x y) {x = suc k} (ground (arith, above))
  ]

  lowest_digit :
      (x y : ℕ)
      → bitwise rest digit (suc x) y
        ≡ bitwise rest digit (suc x / 2) (y / 2) * 2 + digit (suc x % 2) (y % 2)
  lowest_digit x y = omega (arith, any_bound x (suc x / 2) (y / 2) (omega arith))

-- What each operation does on the lowest digits.
pub bit_or_step : (x y : ℕ) → bit_or x y ≡ bit_or (x / 2) (y / 2) * 2 + max (x % 2) (y % 2)
bit_or_step zero y = simp bit_or-bitwise (omega arith)
bit_or_step (suc x) y = simp bit_or-bitwise (lowest_digit (λ t. t) max x y)

pub bit_and_step : (x y : ℕ) → bit_and x y ≡ bit_and (x / 2) (y / 2) * 2 + min (x % 2) (y % 2)
bit_and_step zero y = simp bit_and-bitwise (omega arith)
bit_and_step (suc x) y = simp bit_and-bitwise (lowest_digit (λ t. 0) min x y)

pub bit_xor_step : (x y : ℕ) → bit_xor x y ≡ bit_xor (x / 2) (y / 2) * 2 + differ (x % 2) (y % 2)
bit_xor_step zero y = simp bit_xor-bitwise (omega arith)
bit_xor_step (suc x) y = simp bit_xor-bitwise (lowest_digit (λ t. t) differ x y)

nothing_masked : (k x : ℕ) → x ≤ k → bit_and x 0 ≡ 0
nothing_masked k zero h = refl
nothing_masked zero (suc x) h = absurd (omega arith)
nothing_masked (suc k) (suc x) h =
    omega (arith, nothing_masked k (suc x / 2) (omega arith), bit_and_step (suc x) 0)

bit_and-one : (a : ℕ) → bit_and a 1 ≡ a % 2
bit_and-one a = omega (arith, bit_and_step a 1, nothing_masked (a / 2) (a / 2) (omega arith))

bit_and_three : (a : ℕ) → bit_and a 3 ≡ a % 4
bit_and_three a = omega (arith, bit_and_step a 3, bit_and-one (a / 2))

pub bit_and_seven : (a : ℕ) → bit_and a 7 ≡ a % 8
bit_and_seven a = omega (arith, bit_and_step a 7, bit_and_three (a / 2))

pub bit_and_fifteen : (a : ℕ) → bit_and a 15 ≡ a % 16
bit_and_fifteen a = omega (arith, bit_and_step a 15, bit_and_seven (a / 2))

-- 0x1F
pub bit_and_five : (a : ℕ) → bit_and a 31 ≡ a % 32
bit_and_five a = omega (arith, bit_and_step a 31, bit_and_fifteen (a / 2))

pub bit_and_six : (a : ℕ) → bit_and a 63 ≡ a % 64
bit_and_six a = omega (arith, bit_and_step a 63, bit_and_five (a / 2))

pub bit_and_low7 : (a : ℕ) → bit_and a 127 ≡ a % 128
bit_and_low7 a = omega (arith, bit_and_step a 127, bit_and_six (a / 2))

pub bit_and_byte : (a : ℕ) → bit_and a 255 ≡ a % 256
bit_and_byte a = omega (arith, bit_and_step a 255, bit_and_low7 (a / 2))

-- A mask that starts higher up.
bit_and_double : (a m : ℕ) → bit_and a (m * 2) ≡ bit_and (a / 2) m * 2
bit_and_double a m =
    omega (arith, bit_and_step a (m * 2), ap (λ (t : ℕ). bit_and (a / 2) t) (half_double m))
  where
    half_double : (n : ℕ) → n * 2 / 2 ≡ n
    half_double n = omega arith

bit_and_0x08 : (a : ℕ) → bit_and a 8 ≡ a / 8 % 2 * 8
bit_and_0x08 a = omega (
  arith,
  bit_and_double a 4,
  bit_and_double (a / 2) 2,
  bit_and_double (a / 2 / 2) 1,
  bit_and-one (a / 2 / 2 / 2),
)

-- The top bit of a byte.
pub bit_and_0x80 : (a : ℕ) → bit_and a 0x80 ≡ a / 128 % 2 * 128
bit_and_0x80 a = omega (
  arith,
  bit_and_double a 64,
  bit_and_double (a / 2) 32,
  bit_and_double (a / 2 / 2) 16,
  bit_and_double (a / 2 / 2 / 2) 8,
  bit_and_0x08 (a / 2 / 2 / 2 / 2),
)

-- The top two bits of a byte.
pub bit_and_0xc0 : (a : ℕ) → bit_and a 0xC0 ≡ a / 64 % 4 * 64
bit_and_0xc0 a = omega (
  arith,
  bit_and_double a 96,
  bit_and_double (a / 2) 48,
  bit_and_double (a / 2 / 2) 24,
  bit_and_double (a / 2 / 2 / 2) 12,
  bit_and_double (a / 2 / 2 / 2 / 2) 6,
  bit_and_double (a / 2 / 2 / 2 / 2 / 2) 3,
  bit_and_three (a / 2 / 2 / 2 / 2 / 2 / 2),
)

-- A number has no bit at or above its width.
pub bit_and_above : (n a : ℕ) → a < 2 ^ n → bit_and a (2 ^ n) ≡ 0
bit_and_above zero zero h = omega (arith, bit_and-one 0)
bit_and_above zero (suc a) h = absurd (omega arith)
bit_and_above (suc n) a h = rw (double_pow n) (
    bit_and_double a (2 ^ n)
    ∙ ap (λ t. t * 2) (bit_and_above n (a / 2) (omega (arith, pow-suc 2 n))))
  where
    double_pow : (k : ℕ) → 2 ^ suc k ≡ 2 ^ k * 2
    double_pow k = omega (arith, pow-suc 2 k)

nothing_added : (k x : ℕ) → x ≤ k → bit_or x 0 ≡ x
nothing_added k zero h = refl
nothing_added zero (suc x) h = absurd (omega arith)
nothing_added (suc k) (suc x) h =
    omega (arith, nothing_added k (suc x / 2) (omega arith), bit_or_step (suc x) 0)

-- Disjoint fields: `(q << 6) | r` and `(q << 8) | r` are sums.
bit_or_one : (q r : ℕ) → r < 2 → bit_or (q * 2) r ≡ q * 2 + r
bit_or_one q r h = omega (
  arith,
  bit_or_step (q * 2) r,
  nothing_added q q (omega arith),
  ap (λ (t : ℕ). bit_or t (r / 2)) (half_double q),
  ap (λ (t : ℕ). bit_or q t) (half_small r h),
)
  where
    half_double : (n : ℕ) → n * 2 / 2 ≡ n
    half_double n = omega arith

    half_small : (n : ℕ) → n < 2 → n / 2 ≡ 0
    half_small n p = omega arith

bit_or_next :
    (m q r : ℕ)
    → ((p : ℕ) → p < m → bit_or (q * m) p ≡ q * m + p)
    → r < m * 2
    → bit_or (q * (m * 2)) r ≡ q * (m * 2) + r
bit_or_next m q r ih h = omega (
  arith,
  bit_or_step (q * (m * 2)) r,
  ih (r / 2) (omega arith),
  ap (λ (t : ℕ). bit_or t (r / 2)) (half_double (q * m)),
)
  where
    half_double : (n : ℕ) → q * (m * 2) / 2 ≡ q * m
    half_double n = omega arith

bit_or_two : (q r : ℕ) → r < 4 → bit_or (q * 4) r ≡ q * 4 + r
bit_or_two q r = bit_or_next 2 q r (bit_or_one q)

bit_or_three : (q r : ℕ) → r < 8 → bit_or (q * 8) r ≡ q * 8 + r
bit_or_three q r = bit_or_next 4 q r (bit_or_two q)

pub bit_or_four : (q r : ℕ) → r < 16 → bit_or (q * 16) r ≡ q * 16 + r
bit_or_four q r = bit_or_next 8 q r (bit_or_three q)

bit_or_five : (q r : ℕ) → r < 32 → bit_or (q * 32) r ≡ q * 32 + r
bit_or_five q r = bit_or_next 16 q r (bit_or_four q)

pub bit_or_six : (q r : ℕ) → r < 64 → bit_or (q * 64) r ≡ q * 64 + r
bit_or_six q r = bit_or_next 32 q r (bit_or_five q)

pub bit_or_seven : (q r : ℕ) → r < 128 → bit_or (q * 128) r ≡ q * 128 + r
bit_or_seven q r = bit_or_next 64 q r (bit_or_six q)

pub bit_or_byte : (q r : ℕ) → r < 256 → bit_or (q * 256) r ≡ q * 256 + r
bit_or_byte q r = bit_or_next 128 q r (bit_or_seven q)

-- The same for a field of any width.
pub bit_or_field : (n q r : ℕ) → r < 2 ^ n → bit_or (q * 2 ^ n) r ≡ q * 2 ^ n + r
bit_or_field zero q r h =
    rw (no_rest r h, nothing_added (q * 1) (q * 1) (omega arith)) (omega arith)
  where
    no_rest : (x : ℕ) → x < 2 ^ 0 → x ≡ 0
    no_rest x p = omega arith
bit_or_field (suc n) q r h =
    rw (double_pow n) (bit_or_next (2 ^ n) q r (bit_or_field n q) (omega (arith, double_pow n)))
  where
    double_pow : (k : ℕ) → 2 ^ suc k ≡ 2 ^ k * 2
    double_pow k = omega (arith, pow-suc 2 k)

differ_digits : (x y : ℕ) → x < 2 → y < 2 → differ x y ≡ (x + y) % 2
differ_digits zero y p q = omega arith
differ_digits (suc zero) zero p q = refl
differ_digits (suc zero) (suc zero) p q = refl
differ_digits (suc zero) (suc (suc y)) p q = absurd (omega arith)
differ_digits (suc (suc x)) y p q = absurd (omega arith)

xor_digit : (a b : ℕ) → bit_xor a b ≡ bit_xor (a / 2) (b / 2) * 2 + (a + b) % 2
xor_digit a b =
    omega (arith, bit_xor_step a b, differ_digits (a % 2) (b % 2) (omega arith) (omega arith))

xor_halves : (a b : ℕ) → bit_xor a b / 2 ≡ bit_xor (a / 2) (b / 2)
xor_halves a b = omega (arith, xor_digit a b)

xor_twice_fuel : (n a k : ℕ) → a ≤ n → k ≤ n → bit_xor (bit_xor a k) k ≡ a
xor_twice_fuel zero zero zero p q = refl
xor_twice_fuel zero zero (suc k) p q = absurd (omega arith)
xor_twice_fuel zero (suc a) k p q = absurd (omega arith)
xor_twice_fuel (suc n) a k p q = omega (
  arith,
  xor_digit (bit_xor a k) k,
  xor_digit a k,
  ap (λ (t : ℕ). bit_xor t (k / 2)) (xor_halves a k),
  xor_twice_fuel n (a / 2) (k / 2) (omega arith) (omega arith),
)

-- Masking with the same key a second time gives the byte back.
pub xor_twice : (a k : ℕ) → bit_xor (bit_xor a k) k ≡ a
xor_twice a k = xor_twice_fuel (a + k) a k (omega arith) (omega arith)

xor_lt_pow : (n a k : ℕ) → a < 2 ^ n → k < 2 ^ n → bit_xor a k < 2 ^ n
xor_lt_pow zero zero zero p q = omega arith
xor_lt_pow zero zero (suc k) p q = absurd (omega arith)
xor_lt_pow zero (suc a) k p q = absurd (omega arith)
xor_lt_pow (suc n) a k p q = omega (
  arith,
  pow-suc 2 n,
  xor_digit a k,
  xor_lt_pow n (a / 2) (k / 2) (omega (arith, pow-suc 2 n)) (omega (arith, pow-suc 2 n)),
)

pub xor-IsByte : (a k : ℕ) → a < 256 → k < 256 → bit_xor a k < 256
xor-IsByte a k p q = xor_lt_pow 8 a k p q
