-- ===== src/Prelude/Bits.antt =====
-- Masks of a 16-bit word as arithmetic. The native `bit_and` recurs on the digits of its first
-- argument; the laws below take it one digit, and then one nibble, at a time.
use Prim.Native.Nat.{ℕ, zero, suc, ◌+◌, ◌*◌, ◌/◌, ◌%◌, ◌≤◌, min, bit_and, digits, bit_and-bitwise}
use mathlib.Core.Path.{◌≡◌, refl}
use native.Mathlib.Omega.{arith}

abbrev and_to : ℕ → ℕ → ℕ → ℕ
and_to fuel a b = digits (λ b. zero) min fuel a b

-- Fuel at or above the first number is enough.
and_to-eq : (i j x y : ℕ) → x ≤ j → x ≤ i → and_to j x y ≡ and_to i x y
and_to-eq (suc i) (suc j) (suc x) y fits_j fits_i =
    omega (arith, and_to-eq i j (suc x / 2) (y / 2) (omega arith) (omega arith))
and_to-eq (suc i) (suc j) zero y fits_j fits_i = refl
and_to-eq (suc i) zero zero y fits_j fits_i = refl
and_to-eq zero (suc j) zero y fits_j fits_i = refl
and_to-eq zero zero zero y fits_j fits_i = refl
and_to-eq (suc i) zero (suc x) y fits_j fits_i = absurd (omega arith)
and_to-eq zero j (suc x) y fits_j fits_i = absurd (omega arith)

bit_and-zero_left : (b : ℕ) → bit_and 0 b ≡ 0
bit_and-zero_left b = bit_and-bitwise 0 b

bit_and_digit : (a b : ℕ) → bit_and a b ≡ bit_and (a / 2) (b / 2) * 2 + min (a % 2) (b % 2)
bit_and_digit zero b = omega (arith, bit_and-zero_left b, bit_and-zero_left (b / 2))
bit_and_digit (suc a) b =
    let half = suc a / 2 in
    omega (
      arith,
      bit_and-bitwise (suc a) b,
      bit_and-bitwise half (b / 2),
      and_to-eq half a half (b / 2) (omega arith) (omega arith),
    )

zero_mask_fuel : (n a : ℕ) → a ≤ n → bit_and a 0 ≡ 0
zero_mask_fuel n zero h = bit_and-zero_left 0
zero_mask_fuel zero (suc a) h = absurd (omega arith)
zero_mask_fuel (suc n) (suc a) h =
    omega (arith, bit_and_digit (suc a) 0, zero_mask_fuel n (suc a / 2) (omega arith))

zero_mask : (a : ℕ) → bit_and a 0 ≡ 0
zero_mask a = zero_mask_fuel a a (omega arith)

even_mask : (a m : ℕ) → bit_and a (2 * m) ≡ bit_and (a / 2) m * 2
even_mask a m = rw (bit_and_digit a (2 * m), half) (omega arith)
  where
    half : 2 * m / 2 ≡ m
    half = omega arith

odd_mask : (a m : ℕ) → bit_and a (2 * m + 1) ≡ bit_and (a / 2) m * 2 + a % 2
odd_mask a m = rw (bit_and_digit a (2 * m + 1), half) (omega arith)
  where
    half : (2 * m + 1) / 2 ≡ m
    half = omega arith

-- A mask whose lowest nibble is 0.
skip_nibble : (a m : ℕ) → bit_and a (2 * (2 * (2 * (2 * m)))) ≡ bit_and (a / 16) m * 16
skip_nibble a m = rw (even_mask, even_mask, even_mask, even_mask, quarter) (omega arith)
  where
    quarter : a / 2 / 2 / 2 / 2 ≡ a / 16
    quarter = omega arith

-- A mask whose lowest nibble is full.
fill_nibble :
    (a m : ℕ)
    → bit_and a (2 * (2 * (2 * (2 * m + 1) + 1) + 1) + 1) ≡ bit_and (a / 16) m * 16 + a % 16
fill_nibble a m = rw (odd_mask, odd_mask, odd_mask, odd_mask, quarter) (omega arith)
  where
    quarter : a / 2 / 2 / 2 / 2 ≡ a / 16
    quarter = omega arith

pub low_bit : (a : ℕ) → bit_and a 0x0001 ≡ a % 2
low_bit a = omega (arith, odd_mask a 0, zero_mask (a / 2))

low_three : (a : ℕ) → bit_and a 7 ≡ a % 8
low_three a = omega (arith, odd_mask a 3, odd_mask (a / 2) 1, low_bit (a / 2 / 2))

pub low_nibble : (a : ℕ) → bit_and a 0x000f ≡ a % 16
low_nibble a = omega (arith, odd_mask a 7, low_three (a / 2))

pub low_byte : (a : ℕ) → bit_and a 0x00ff ≡ a % 256
low_byte a = omega (arith, fill_nibble a 15, low_nibble (a / 16))

-- The masks of the UDP header, each with the shift that follows it in the parser.
pub middle_byte : (w : ℕ) → bit_and w 0x0ff0 / 16 ≡ w / 16 % 256
middle_byte w = omega (arith, skip_nibble w 255, low_byte (w / 16))

pub top_nibble : (w : ℕ) → bit_and w 0xf000 / 4096 ≡ w / 4096 % 16
top_nibble w = omega (
  arith,
  skip_nibble w 0xf00,
  skip_nibble (w / 16) 0xf0,
  skip_nibble (w / 16 / 16) 0xf,
  low_nibble (w / 16 / 16 / 16),
)

pub top_three_bits : (w : ℕ) → bit_and w 0xe000 / 8192 ≡ w / 8192 % 8
top_three_bits w = omega (
  arith,
  skip_nibble w 0xe00,
  skip_nibble (w / 16) 0xe0,
  skip_nibble (w / 16 / 16) 0xe,
  even_mask (w / 16 / 16 / 16) 7,
  low_three (w / 16 / 16 / 16 / 2),
)

pub standard_bit : (w : ℕ) → bit_and w 0x1000 / 4096 ≡ w / 4096 % 2
standard_bit w = omega (
  arith,
  skip_nibble w 0x100,
  skip_nibble (w / 16) 0x10,
  skip_nibble (w / 16 / 16) 1,
  low_bit (w / 16 / 16 / 16),
)

low_fifteen_bits : (a : ℕ) → bit_and a 32767 ≡ a % 32768
low_fifteen_bits a = omega (
  arith,
  fill_nibble a 2047,
  fill_nibble (a / 16) 127,
  fill_nibble (a / 16 / 16) 7,
  low_three (a / 16 / 16 / 16),
)

pub all_but_low_bit : (w : ℕ) → bit_and w 0xfffe / 2 ≡ w / 2 % 32768
all_but_low_bit w = omega (arith, even_mask w 32767, low_fifteen_bits (w / 2))
