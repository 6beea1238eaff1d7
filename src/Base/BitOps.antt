-- ===== src/Base/BitOps.antt =====
-- The bit operators at variables: `&`, `|`, `^` by their lowest digit, then the forms that occur
-- in the code (masks of low bits, shifted masks, disjoint fields) as arithmetic, and bounds.
mod Digits
use Digits.{and_halves, or_halves, xor_halves}
use Prim.Native.Nat.{min, max, differ, bit_and-bitwise, bit_xor-bitwise}
use native.Mathlib.Nat.{pow-suc, one-le-pow, div-div-eq-div-mul}
use rv32i_cpu.Base.Tests.{if◌then◌else◌}
use rv32i_cpu.Base.Int.{ℤ, pos, negsuc, and_ℤ, mod_ℤ, ◌-ℤ◌}
use Prim.Native.Nat.{ℕ, zero, suc, ◌+◌, ◌-◌, ◌*◌, ◌/◌, ◌%◌, ◌^◌, ◌≤◌, ◌<◌, bit_and, bit_or, bit_xor}
use mathlib.Core.Path.{◌≡◌, refl, sym, ap, ◌∙◌}
use native.Mathlib.Omega.{arith}

-- `a & ~m`: the bits of `a` that the mask `m` does not select.
unfoldable pub and_not : ℕ → ℕ → ℕ
and_not a m = a - bit_and a m

-- One digit of an exclusive or is a digit.
differ-lt : (a b : ℕ) → a < 2 → b < 2 → differ a b < 2
differ-lt zero b ha hb = hb
differ-lt (suc a) zero ha hb = ha
differ-lt (suc a) (suc b) ha hb =
    let e : a ≡ 0 = omega arith in let e' : b ≡ 0 = omega arith in rw (e, e') (omega arith)

and-zero_fuel : (k a : ℕ) → a ≤ k → bit_and a 0 ≡ 0
and-zero_fuel k zero h = refl
and-zero_fuel zero (suc a) h = absurd (omega arith)
and-zero_fuel (suc k) (suc a) h =
    omega (arith, and_halves (suc a) 0, and-zero_fuel k (suc a / 2) (omega arith))

pub and-zero : (a : ℕ) → bit_and a 0 ≡ 0
and-zero a = and-zero_fuel a a (omega arith)

or-zero_fuel : (k a : ℕ) → a ≤ k → bit_or a 0 ≡ a
or-zero_fuel k zero h = refl
or-zero_fuel zero (suc a) h = absurd (omega arith)
or-zero_fuel (suc k) (suc a) h =
    omega (arith, or_halves (suc a) 0, or-zero_fuel k (suc a / 2) (omega arith))

pub or-zero : (a : ℕ) → bit_or a 0 ≡ a
or-zero a = or-zero_fuel a a (omega arith)

div_step : (a s : ℕ) → a / 2 / 2 ^ s ≡ a / 2 ^ suc s
div_step a s = div-div-eq-div-mul a 2 (2 ^ s) ∙ ap (λ t. a / t) (omega (arith, pow-suc 2 s))

mod_step : (a s : ℕ) → a % 2 ^ suc s ≡ a / 2 % 2 ^ s * 2 + a % 2
mod_step a s = omega (
  arith,
  one-le-pow s 2,
  pow-suc 2 s,
  ap (λ (t : ℕ). 2 ^ suc s * t) (div_step a s),
  ap (λ (t : ℕ). t * (a / 2 / 2 ^ s)) (pow-suc 2 s),
)

shift_step : (m s : ℕ) → m * 2 ^ suc s ≡ m * 2 ^ s * 2
shift_step m s = omega (arith, ap (λ (t : ℕ). m * t) (pow-suc 2 s))

-- `a & (2^k - 1)` is the remainder by `2^k`.
pub and_low : (k a : ℕ) → bit_and a (2 ^ k - 1) ≡ a % 2 ^ k
and_low zero a = omega (arith, and-zero a)
and_low (suc k) a =
    let halved : (2 ^ suc k - 1) / 2 ≡ 2 ^ k - 1 = omega (arith, pow-suc 2 k, one-le-pow k 2) in
    let odd : (2 ^ suc k - 1) % 2 ≡ 1 = omega (arith, pow-suc 2 k, one-le-pow k 2) in
    and_halves a (2 ^ suc k - 1) ∙ rw (halved, odd) (omega (arith, mod_step a k, and_low k (a / 2)))

-- `a & (m << s)` selects the bits of `a >> s`, in their place.
pub and_shifted : (s m a : ℕ) → bit_and a (m * 2 ^ s) ≡ bit_and (a / 2 ^ s) m * 2 ^ s
and_shifted zero m a =
    let e : m * 2 ^ 0 ≡ m = omega arith in
    let e' : a / 2 ^ 0 ≡ a = omega arith in rw (e, e') (omega arith)
and_shifted (suc s) m a =
    let halved : m * 2 ^ suc s / 2 ≡ m * 2 ^ s = omega (arith, shift_step m s) in
    and_halves a (m * 2 ^ suc s)
    ∙ rw (halved, and_shifted s m (a / 2), div_step a s)
        (omega (arith, shift_step m s, shift_step (bit_and (a / 2 ^ suc s) m) s))

-- `x | (v << s)` leaves the bits below `s` alone.
pub or_shifted : (s x v : ℕ) → bit_or x (v * 2 ^ s) ≡ bit_or (x / 2 ^ s) v * 2 ^ s + x % 2 ^ s
or_shifted zero x v =
    let e : v * 2 ^ 0 ≡ v = omega arith in
    let e' : x / 2 ^ 0 ≡ x = omega arith in rw (e, e') (omega arith)
or_shifted (suc s) x v =
    let halved : v * 2 ^ suc s / 2 ≡ v * 2 ^ s = omega (arith, shift_step v s) in
    or_halves x (v * 2 ^ suc s)
    ∙ rw (halved, or_shifted s (x / 2) v, div_step x s)
        (omega (arith, mod_step x s, shift_step v s, shift_step (bit_or (x / 2 ^ suc s) v) s))

-- `x | r` is a sum where `x` is a multiple of `2^k` and `r` is below it.
pub or_add : (k x r : ℕ) → x % 2 ^ k ≡ 0 → r < 2 ^ k → bit_or x r ≡ x + r
or_add zero x r hx hr = let e : r ≡ 0 = omega arith in rw e (omega (arith, or-zero x))
or_add (suc k) x r hx hr = omega (
  arith,
  or_halves x r,
  mod_step x k,
  or_add k (x / 2) (r / 2) (omega (arith, mod_step x k)) (omega (arith, pow-suc 2 k)),
)

pub and-lt : (k a b : ℕ) → a < 2 ^ k → bit_and a b < 2 ^ k
and-lt zero a b ha = let e : a ≡ 0 = omega arith in rw e (omega (arith, bit_and-bitwise 0 b))
and-lt (suc k) a b ha =
    omega
      (arith, and_halves a b, pow-suc 2 k, and-lt k (a / 2) (b / 2) (omega (arith, pow-suc 2 k)))

pub or-lt : (k a b : ℕ) → a < 2 ^ k → b < 2 ^ k → bit_or a b < 2 ^ k
or-lt zero a b ha hb = let e : b ≡ 0 = omega arith in rw e (omega (arith, or-zero a))
or-lt (suc k) a b ha hb = omega (
  arith,
  or_halves a b,
  pow-suc 2 k,
  or-lt k (a / 2) (b / 2) (omega (arith, pow-suc 2 k)) (omega (arith, pow-suc 2 k)),
)

pub xor-lt : (k a b : ℕ) → a < 2 ^ k → b < 2 ^ k → bit_xor a b < 2 ^ k
xor-lt zero a b ha hb = let e : a ≡ 0 = omega arith in rw e (omega (arith, bit_xor-bitwise 0 b))
xor-lt (suc k) a b ha hb = omega (
  arith,
  xor_halves a b,
  differ-lt (a % 2) (b % 2) (omega arith) (omega arith),
  pow-suc 2 k,
  xor-lt k (a / 2) (b / 2) (omega (arith, pow-suc 2 k)) (omega (arith, pow-suc 2 k)),
)

-- `z & (2^k - 1)` is the remainder by `2^k`, also of a negative number.
pub and_ℤ_low : (k : ℕ) (z : ℤ) → and_ℤ z (2 ^ k - 1) ≡ mod_ℤ z (2 ^ k)
unfolding and_ℤ
and_ℤ_low k (pos n) = and_low k n
and_ℤ_low k (negsuc n) = omega (arith, and_low k n)
