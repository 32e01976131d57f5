-- ===== src/Common/Bits.antt =====
-- Masks and shifts on words as arithmetic, for words of every width: what pb.c does with `&`, `|`
-- and `<<` on the groups of seven bits and on the tag word.
use Prim.Native.Nat.{
  ℕ, zero, suc, ◌+◌, ◌*◌, ◌/◌, ◌%◌, ◌^◌, ◌≤◌, ◌<◌, min, max, bit_and, bit_or, digits, bitwise,
  bit_and-bitwise, bit_or-bitwise,
}
use mathlib.Core.Path.{◌≡◌, refl, sym, ap}
use mathlib.Core.Logic.{◌⊎◌, inl, inr}
use native.Mathlib.Nat.{pow-suc, le_refl}
use native.Mathlib.Omega.{arith}

-- The digit recursion that the operations stand for does not depend on its fuel.
module _ (z : ℕ → ℕ) (f : ℕ → ℕ → ℕ) where
  fuel_irrelevant : (n m a b : ℕ) → a ≤ n → a ≤ m → digits z f n a b ≡ digits z f m a b
  fuel_irrelevant zero zero a b p q = refl
  fuel_irrelevant zero (suc m) zero b p q = refl
  fuel_irrelevant zero (suc m) (suc a) b p q = absurd (omega arith)
  fuel_irrelevant (suc n) zero zero b p q = refl
  fuel_irrelevant (suc n) zero (suc a) b p q = absurd (omega arith)
  fuel_irrelevant (suc n) (suc m) zero b p q = refl
  fuel_irrelevant (suc n) (suc m) (suc a) b p q =
      omega (arith, fuel_irrelevant n m (suc a / 2) (b / 2) (omega arith) (omega arith))

  low_digit :
      (b a : ℕ)
      → bitwise z f (suc a / 2) (b / 2) * 2 + f (suc a % 2) (b % 2) ≡ bitwise z f (suc a) b
  low_digit b a =
      omega (arith, fuel_irrelevant a (suc a / 2) (suc a / 2) (b / 2) (omega arith) (le_refl _))

or_digit : (a b : ℕ) → bit_or a b ≡ bit_or (a / 2) (b / 2) * 2 + max (a % 2) (b % 2)
or_digit zero b = simp bit_or-bitwise (omega arith)
or_digit (suc a) b = simp bit_or-bitwise (sym (low_digit (λ y. y) max b a))

and_digit : (a b : ℕ) → bit_and a b ≡ bit_and (a / 2) (b / 2) * 2 + min (a % 2) (b % 2)
and_digit zero b = simp bit_and-bitwise (omega arith)
and_digit (suc a) b = simp bit_and-bitwise (sym (low_digit (λ y. 0) min b a))

and_none_below : (n a : ℕ) → a ≤ n → bit_and a 0 ≡ 0
and_none_below n zero h = refl
and_none_below zero (suc a) h = absurd (omega arith)
and_none_below (suc n) (suc a) h =
    omega (arith, and_digit (suc a) 0, and_none_below n (suc a / 2) (omega arith))

and_none : (a : ℕ) → bit_and a 0 ≡ 0
and_none a = and_none_below a a (le_refl a)

-- The masks of the source, one digit after the other.
pub and_one : (a : ℕ) → bit_and a 1 ≡ a % 2
and_one a = omega (arith, and_digit a 1, and_none (a / 2))

and_three : (a : ℕ) → bit_and a 3 ≡ a % 4
and_three a = omega (arith, and_digit a 3, and_one (a / 2))

pub and_seven : (a : ℕ) → bit_and a 7 ≡ a % 8
and_seven a = omega (arith, and_digit a 7, and_three (a / 2))

and_fifteen : (a : ℕ) → bit_and a 15 ≡ a % 16
and_fifteen a = omega (arith, and_digit a 15, and_seven (a / 2))

and_thirty_one : (a : ℕ) → bit_and a 31 ≡ a % 32
and_thirty_one a = omega (arith, and_digit a 31, and_fifteen (a / 2))

and_sixty_three : (a : ℕ) → bit_and a 63 ≡ a % 64
and_sixty_three a = omega (arith, and_digit a 63, and_thirty_one (a / 2))

pub and_0x7f : (a : ℕ) → bit_and a 0x7f ≡ a % 128
and_0x7f a = omega (arith, and_digit a 127, and_sixty_three (a / 2))

-- A number below `2 ^ s` or-ed with one that is shifted by `s`.
pub or_shifted : (s r x : ℕ) → r < 2 ^ s → bit_or r (x * 2 ^ s) ≡ r + x * 2 ^ s
or_shifted zero r x h = let e : r ≡ 0 = omega arith in rw (e, bit_or-bitwise) (omega arith)
or_shifted (suc s) r x h = omega (
  arith,
  or_digit r (x * 2 ^ suc s),
  ap (λ (t : ℕ). x * t) (pow-suc 2 s),
  pow-suc 2 s,
  ap (λ (t : ℕ). bit_or (r / 2) t) (halved s x),
  or_shifted s (r / 2) x (below s r h),
)
  where
    halved : (s x : ℕ) → x * 2 ^ suc s / 2 ≡ x * 2 ^ s
    halved s x = omega (arith, ap (λ (t : ℕ). x * t) (pow-suc 2 s))

    below : (s r : ℕ) → r < 2 ^ suc s → r / 2 < 2 ^ s
    below s r h = omega (arith, pow-suc 2 s)

pub or_0x80 : (g : ℕ) → g < 128 → bit_or g 0x80 ≡ g + 128
or_0x80 g h = or_shifted 7 g 1 h

-- The test of one bit, up to the continuation bit of a byte.
and_two : (a : ℕ) → bit_and a 2 ≡ a / 2 % 2 * 2
and_two a = omega (arith, and_digit a 2, and_one (a / 2))

and_four : (a : ℕ) → bit_and a 4 ≡ a / 4 % 2 * 4
and_four a = omega (arith, and_digit a 4, and_two (a / 2))

and_eight : (a : ℕ) → bit_and a 8 ≡ a / 8 % 2 * 8
and_eight a = omega (arith, and_digit a 8, and_four (a / 2))

and_sixteen : (a : ℕ) → bit_and a 16 ≡ a / 16 % 2 * 16
and_sixteen a = omega (arith, and_digit a 16, and_eight (a / 2))

and_thirty_two : (a : ℕ) → bit_and a 32 ≡ a / 32 % 2 * 32
and_thirty_two a = omega (arith, and_digit a 32, and_sixteen (a / 2))

and_sixty_four : (a : ℕ) → bit_and a 64 ≡ a / 64 % 2 * 64
and_sixty_four a = omega (arith, and_digit a 64, and_thirty_two (a / 2))

and_two_pow : (a : ℕ) → bit_and a 128 ≡ a / 128 % 2 * 128
and_two_pow a = omega (arith, and_digit a 128, and_sixty_four (a / 2))

pub and_0x80_low : (b : ℕ) → b < 128 → bit_and b 0x80 ≡ 0
and_0x80_low b h = omega (arith, and_two_pow b)

pub and_0x80_high : (g : ℕ) → g < 128 → bit_and (g + 128) 0x80 ≡ 128
and_0x80_high g h = omega (arith, and_two_pow (g + 128))

-- A mask is a bound.
and_le_below : (n a b : ℕ) → b ≤ n → bit_and a b ≤ b
and_le_below zero a b h =
    let e : b ≡ 0 = omega arith in omega (arith, and_none a, ap (λ (t : ℕ). bit_and a t) e)
and_le_below (suc n) a b h = elim (is_zero b) [
  | inl e ↦ omega (arith, and_none a, ap (λ (t : ℕ). bit_and a t) e)
  | inr pos ↦ omega (arith, and_digit a b, and_le_below n (a / 2) (b / 2) (omega arith))
]
  where
    is_zero : (b : ℕ) → (b ≡ 0) ⊎ (0 < b)
    is_zero zero = inl refl
    is_zero (suc b) = inr (omega arith)

pub and_le : (a b : ℕ) → bit_and a b ≤ b
and_le a b = and_le_below b a b (le_refl b)
