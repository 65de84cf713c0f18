-- ===== src/Prelude/Text.antt =====
-- Bytes and strings. A `String`, a `&str` and a `Bytes` are all the list of their bytes.
use Prim.Native.Nat.{ℕ, zero, suc, ◌+◌, ◌-◌, ◌*◌, ◌/◌, ◌%◌, ◌<◌}
use Prim.Native.Char.{code}
use Prim.Native.String.{String}
use mathlib.Core.Path.{◌≡◌, refl, ◌∙◌}
use mathlib.Core.Logic.{◌↔◌, inl, inr}
use mathlib.Core.Bool.{Bool, true, false, ◌&&◌, ◌||◌}
use mathlib.Core.List.{List, [], ◌∷◌, ◌++◌, map}
use grpc_server_rust.Prelude.Lists.{length, drop}
use native.Mathlib.Omega.{arith}
use grpc_server_rust.Prelude.Tests.{◌==◌, if◌then◌else◌, ltb, leb, Bool-cases}

abbrev pub Bytes : Type 0
Bytes = List ℕ

abbrev pub Str : Type 0
Str = List ℕ

-- The bytes of an ASCII literal.
abbrev pub str : String → Str
str String.[] = []
str (String.◌∷◌ c s) = code c ∷ str s

unfoldable pub str_eq : Str → Str → Bool
str_eq [] [] = true
str_eq [] (b ∷ t) = false
str_eq (a ∷ s) [] = false
str_eq (a ∷ s) (b ∷ t) = a == b && str_eq s t

pub str_eq_iff : (s t : Str) → (str_eq s t ≡ true) ↔ (s ≡ t)
unfolding str_eq
str_eq_iff [] [] = ground arith
str_eq_iff [] (b ∷ t) = ground arith
str_eq_iff (a ∷ s) [] = ground arith
str_eq_iff (a ∷ s) (b ∷ t) = ground (arith, str_eq_iff s t)

pub str_eq_refl : (s : Str) → str_eq s s ≡ true
str_eq_refl s = (str_eq_iff s s).1 refl

-- `s.starts_with(prefix)`, `s.ends_with(suffix)` and `s.contains(part)`
unfoldable pub starts_with : Str → Str → Bool
starts_with s [] = true
starts_with [] (c ∷ prefix) = false
starts_with (b ∷ s) (c ∷ prefix) = b == c && starts_with s prefix

unfoldable pub ends_with : Str → Str → Bool
ends_with s suffix = str_eq (drop (length s - length suffix) s) suffix

unfoldable pub contains_str : Str → Str → Bool
unfolding starts_with
contains_str [] part = starts_with [] part
contains_str (b ∷ s) part = starts_with (b ∷ s) part || contains_str s part

-- `to_lowercase` of an ASCII text
unfoldable pub to_lowercase : Str → Str
to_lowercase s = map (λ b. if leb 65 b && leb b 90 then b + 32 else b) s

-- Decimal digits, with fuel for the number of them.
fmt_digits : ℕ → ℕ → Str
fmt_digits zero n = []
fmt_digits (suc fuel) n =
    let front = fmt_digits fuel (n / 10) in
    if ltb n 10 then (b'0' + n) ∷ [] else front ++ (b'0' + n % 10) ∷ []

-- `format!("{}", n)`; a u64 has at most twenty digits
unfoldable pub fmt_nat : ℕ → Str
unfolding fmt_digits
fmt_nat n = fmt_digits 20 n

-- The number that a text of decimal digits stands for.
abbrev pub read_digits : ℕ → Str → ℕ
read_digits n [] = n
read_digits n (c ∷ s) = read_digits (n * 10 + (c - 48)) s

abbrev power_of_ten : ℕ → ℕ
power_of_ten zero = 1
power_of_ten (suc k) = 10 * power_of_ten k

read_digits-append : (n : ℕ) (s t : Str) → read_digits n (s ++ t) ≡ read_digits (read_digits n s) t
read_digits-append n [] t = refl
read_digits-append n (c ∷ s) t = read_digits-append (n * 10 + (c - 48)) s t

read_digits-fmt_digits :
    (fuel n : ℕ) → n < power_of_ten fuel → 0 < fuel → read_digits 0 (fmt_digits fuel n) ≡ n
unfolding fmt_digits
read_digits-fmt_digits zero n h f = absurd (omega arith)
read_digits-fmt_digits (suc zero) n h f = ground arith
read_digits-fmt_digits (suc (suc fuel)) n h f = elim (Bool-cases (ltb n 10)) [
  | inl one ↦ rw one (omega arith)
  | inr more ↦ rw more (
      read_digits-append 0 (fmt_digits (suc fuel) (n / 10)) ((48 + n % 10) ∷ [])
      ∙ omega (arith, read_digits-fmt_digits (suc fuel) (n / 10) (omega arith) (omega arith)))
]

-- The text of a u64 reads back as the number: twenty digits are enough.
pub fmt_nat_lem : (n : ℕ) → n < 18446744073709551616 → read_digits 0 (fmt_nat n) ≡ n
unfolding fmt_nat
fmt_nat_lem n h = read_digits-fmt_digits 20 n (omega arith) (omega arith)
