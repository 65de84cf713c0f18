-- ===== src/Udp/Hex.antt =====
-- The hexadecimal text of the header bytes.
use grpc_server_rust.Prelude.{
  ℕ, ◌+◌, ◌-◌, ◌⊎◌, ◌||◌, ==_iff, table, table-row, ◌*◌, ◌/◌, ◌%◌, ◌≤◌, ◌<◌, ◌≡◌, refl, ap₂, arith,
  Bool, true, ◌&&◌, ◌==◌, leb, [], ◌∷◌, Bytes, Str, length, All, get_or, if◌then◌else◌,
}
use grpc_server_rust.Udp.Printing.{hex_encode, hex_digits}

-- The value of a digit 0-9 or a-f.
abbrev pub hex_value : ℕ → ℕ
hex_value c = if leb c 57 then c - 48 else c - 87

abbrev pub hex_decode : Str → Bytes
hex_decode [] = []
hex_decode (a ∷ []) = []
hex_decode (a ∷ b ∷ s) = (hex_value a * 16 + hex_value b) ∷ hex_decode s

abbrev pub IsHexDigit : ℕ → Type 0
IsHexDigit c = ((48 ≤ c) × (c ≤ 57)) ⊎ ((97 ≤ c) × (c ≤ 102))

digit_table : table (λ n. hex_value (get_or hex_digits n 0) == n) 16 ≡ true
unfolding table
digit_table = refl

digit_value : (n : ℕ) → n < 16 → hex_value (get_or hex_digits n 0) ≡ n
digit_value n h = (==_iff _ n).0 (table-row _ 16 n digit_table h)

is_hex_digit : ℕ → Bool
is_hex_digit c = (leb 48 c && leb c 57) || (leb 97 c && leb c 102)

shape_table : table (λ n. is_hex_digit (get_or hex_digits n 0)) 16 ≡ true
unfolding table is_hex_digit
shape_table = refl

digit-IsHexDigit : (n : ℕ) → n < 16 → IsHexDigit (get_or hex_digits n 0)
unfolding is_hex_digit
digit-IsHexDigit n h = ground (arith, table-row _ 16 n shape_table h)

-- The text of a string of bytes has two digits 0-9 or a-f for each, and reads back as those bytes.
pub hex_encode_lem :
    (bytes : Bytes)
    → All (λ b. b < 256) bytes
    → (length (hex_encode bytes) ≡ 2 * length bytes)
      × All IsHexDigit (hex_encode bytes)
      × (hex_decode (hex_encode bytes) ≡ bytes)
unfolding hex_encode
hex_encode_lem [] h = (refl, tt, refl)
hex_encode_lem (b ∷ bytes) (hb, hbs) =
    let (two, shape, back) = hex_encode_lem bytes hbs in
    (
      omega (arith, two),
      (digit-IsHexDigit (b / 16) (omega arith), (digit-IsHexDigit (b % 16) (omega arith), shape)),
      rw (digit_value (b / 16) (omega arith), digit_value (b % 16) (omega arith))
          (ap₂ (λ c t. c ∷ t) (omega arith) back),
    )
