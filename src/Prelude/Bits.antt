-- ===== src/Prelude/Bits.antt =====
-- Single bits of a machine word: what `raw & (1u << k)` says of `raw`.
use Prim.Native.Nat.{
  ℕ, zero, suc, ◌+◌, ◌<◌, ◌*◌, ◌/◌, ◌%◌, ◌≤◌, min, bit_and, digits, bit_and-bitwise,
}
use mathlib.Core.Path.{◌≡◌, refl, ◌∙◌}
use native.Mathlib.Omega.{arith}

-- `1 << k`, and `a >> k`.
abbrev pub mask : ℕ → ℕ
mask zero = 1
mask (suc k) = mask k * 2

abbrev pub shift : ℕ → ℕ → ℕ
shift zero a = a
shift (suc k) a = shift k (a / 2)

-- The conjunction as the native operation defines it, over `n` binary digits.
abbrev conj : ℕ → ℕ → ℕ → ℕ
conj n a b = digits (λ c. zero) min n a b

conj-zero : (n a : ℕ) → conj n a 0 ≡ 0
conj-zero zero a = refl
conj-zero (suc n) zero = refl
conj-zero (suc n) (suc a) = omega (arith, conj-zero n (suc a / 2))

shift-zero : (k : ℕ) → shift k 0 ≡ 0
shift-zero zero = refl
shift-zero (suc k) = shift-zero k

-- A mask of one bit keeps that bit of the number and clears the others.
conj-mask : (k n a : ℕ) → a ≤ n → conj n a (mask k) ≡ mask k * (shift k a % 2)
conj-mask zero zero zero h = refl
conj-mask (suc k) zero zero h = rw (shift-zero k) (omega arith)
conj-mask k zero (suc a) h = absurd (omega arith)
conj-mask zero (suc n) zero h = refl
conj-mask (suc k) (suc n) zero h = rw (shift-zero k) (omega arith)
conj-mask zero (suc n) (suc a) h = omega (arith, conj-zero n (suc a / 2))
conj-mask (suc k) (suc n) (suc a) h =
    let half : mask k * 2 / 2 ≡ mask k = omega arith in
    rw half (omega (arith, conj-mask k n (suc a / 2) (omega arith)))

pub bit_and-mask : (k a : ℕ) → bit_and a (mask k) ≡ mask k * (shift k a % 2)
bit_and-mask k a = bit_and-bitwise a (mask k) ∙ conj-mask k a a (omega arith)

-- `(1 << k) - 1`
abbrev pub ones : ℕ → ℕ
ones zero = 0
ones (suc k) = ones k * 2 + 1

abbrev pub pow2 : ℕ → ℕ
pow2 zero = 1
pow2 (suc k) = pow2 k * 2

-- A mask of ones keeps a number that fits in it.
conj-ones : (k n a : ℕ) → a ≤ n → a < pow2 k → conj n a (ones k) ≡ a
conj-ones zero n zero h l = conj-zero n 0
conj-ones zero n (suc a) h l = absurd (omega arith)
conj-ones (suc k) zero zero h l = refl
conj-ones (suc k) zero (suc a) h l = absurd (omega arith)
conj-ones (suc k) (suc n) zero h l = refl
conj-ones (suc k) (suc n) (suc a) h l =
    let half : (ones k * 2 + 1) / 2 ≡ ones k = omega arith in
    rw half (omega (arith, conj-ones k n (suc a / 2) (omega arith) (omega arith)))

conj-ones_even : (k n a : ℕ) → a ≤ n → a < pow2 (suc k) → conj n a (ones k * 2) ≡ a / 2 * 2
conj-ones_even k zero zero h l = refl
conj-ones_even k zero (suc a) h l = absurd (omega arith)
conj-ones_even zero (suc n) a h l = omega (arith, conj-zero (suc n) a)
conj-ones_even (suc k) (suc n) zero h l = refl
conj-ones_even (suc k) (suc n) (suc a) h l =
    let half : (ones k * 2 + 1) * 2 / 2 ≡ ones k * 2 + 1 = omega arith in
    rw half (omega (arith, conj-ones (suc k) n (suc a / 2) (omega arith) (omega arith)))

-- A mask of all bits but the lowest clears that one.
pub bit_and-ones_even : (k a : ℕ) → a < pow2 (suc k) → bit_and a (ones k * 2) ≡ a / 2 * 2
bit_and-ones_even k a l = bit_and-bitwise a (ones k * 2) ∙ conj-ones_even k a a (omega arith) l
