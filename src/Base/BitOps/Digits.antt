-- ===== src/Base/BitOps/Digits.antt =====
-- One digit of `&`, `|` and `^`. The native operators mean a recursion on binary digits with fuel;
-- here the fuel is gone.
use Prim.Native.Nat.{
  ℕ, zero, suc, ◌+◌, ◌*◌, ◌/◌, ◌%◌, ◌≤◌, min, max, differ, digits, bitwise, bit_and, bit_or,
  bit_xor, bit_and-bitwise, bit_or-bitwise, bit_xor-bitwise,
}
use mathlib.Core.Path.{◌≡◌, refl, ap}
use native.Mathlib.Omega.{arith}

module _ (rest : ℕ → ℕ) (digit : ℕ → ℕ → ℕ) where
  -- Any two amounts of fuel that reach the last digit give the same number.
  fuel_irrelevant :
      (f g a b : ℕ) → a ≤ f → a ≤ g → digits rest digit f a b ≡ digits rest digit g a b
  fuel_irrelevant zero zero a b p q = refl
  fuel_irrelevant zero (suc g) zero b p q = refl
  fuel_irrelevant (suc f) zero zero b p q = refl
  fuel_irrelevant (suc f) (suc g) zero b p q = refl
  fuel_irrelevant zero g (suc a) b p q = absurd (omega arith)
  fuel_irrelevant (suc f) zero (suc a) b p q = absurd (omega arith)
  fuel_irrelevant (suc f) (suc g) (suc a) b p q =
      ap (λ t. t * 2 + digit (suc a % 2) (b % 2))
        (fuel_irrelevant f g (suc a / 2) (b / 2) (omega arith) (omega arith))

  bitwise_halves :
      ((b : ℕ) → rest b ≡ rest (b / 2) * 2 + digit 0 (b % 2))
      → (a b : ℕ)
      → bitwise rest digit a b ≡ bitwise rest digit (a / 2) (b / 2) * 2 + digit (a % 2) (b % 2)
  bitwise_halves h zero b = h b
  bitwise_halves h (suc a) b =
      ap (λ t. t * 2 + digit (suc a % 2) (b % 2))
        (fuel_irrelevant a (suc a / 2) (suc a / 2) (b / 2) (omega arith) (omega arith))

pub and_halves : (a b : ℕ) → bit_and a b ≡ bit_and (a / 2) (b / 2) * 2 + min (a % 2) (b % 2)
and_halves a b =
    rw (bit_and-bitwise a b, bit_and-bitwise (a / 2) (b / 2))
      (bitwise_halves (λ _. 0) min (λ c. omega arith) a b)

pub or_halves : (a b : ℕ) → bit_or a b ≡ bit_or (a / 2) (b / 2) * 2 + max (a % 2) (b % 2)
or_halves a b =
    rw (bit_or-bitwise a b, bit_or-bitwise (a / 2) (b / 2))
      (bitwise_halves (λ c. c) max (λ c. omega arith) a b)

pub xor_halves : (a b : ℕ) → bit_xor a b ≡ bit_xor (a / 2) (b / 2) * 2 + differ (a % 2) (b % 2)
xor_halves a b =
    rw (bit_xor-bitwise a b, bit_xor-bitwise (a / 2) (b / 2))
      (bitwise_halves (λ c. c) differ (λ c. omega arith) a b)
