-- ===== src/Base/Bits.antt =====
-- `|` of a number and a byte below it.
use Prim.Native.Nat.{
  ℕ, zero, suc, ◌+◌, ◌*◌, ◌/◌, ◌^◌, ◌≤◌, ◌<◌, max, digits, bit_or, bit_or-bitwise,
}
use mathlib.Core.Path.{◌≡◌, refl, ap}
use native.Mathlib.Nat.{pow-suc}
use native.Mathlib.Omega.{arith}

abbrev or_digits : ℕ → ℕ → ℕ → ℕ
or_digits fuel x y = digits (λ y. y) max fuel x y

-- the sum of a multiple of `2 ^ k` and a number below that, digit by digit
digits_disjoint :
    (fuel k q x y : ℕ) → x ≤ fuel → x ≡ q * 2 ^ k → y < 2 ^ k → or_digits fuel x y ≡ x + y
digits_disjoint zero k q zero y le e h = omega arith
digits_disjoint zero k q (suc x) y le e h = absurd (omega arith)
digits_disjoint (suc fuel) k q zero y le e h = omega arith
digits_disjoint (suc fuel) zero q (suc x) y le e h = omega (
  arith,
  digits_disjoint fuel zero (suc x / 2) (suc x / 2) (y / 2) (omega arith) (omega arith)
      (omega arith),
)
digits_disjoint (suc fuel) (suc k) q (suc x) y le e h =
    let p = pow-suc 2 k in
    let f : q * 2 ^ suc k ≡ 2 * (q * 2 ^ k) = omega (arith, ap (λ (t : ℕ). q * t) p) in
    omega (
      arith,
      f,
      digits_disjoint fuel k q (suc x / 2) (y / 2) (omega arith) (omega arith) (omega arith),
    )

pub bit_or_disjoint : (k q y : ℕ) → y < 2 ^ k → bit_or (q * 2 ^ k) y ≡ q * 2 ^ k + y
bit_or_disjoint k q y h =
    simp bit_or-bitwise (digits_disjoint (q * 2 ^ k) k q (q * 2 ^ k) y (omega arith) refl h)

digits_ge : (fuel x y : ℕ) → x ≤ fuel → y ≤ or_digits fuel x y
digits_ge zero zero y le = omega arith
digits_ge zero (suc x) y le = absurd (omega arith)
digits_ge (suc fuel) zero y le = omega arith
digits_ge (suc fuel) (suc x) y le = omega (arith, digits_ge fuel (suc x / 2) (y / 2) (omega arith))

pub bit_or_ge : (x y : ℕ) → y ≤ bit_or x y
bit_or_ge x y = simp bit_or-bitwise (digits_ge x x y (omega arith))
