-- ===== src/Prelude/Utf8.antt =====
-- `std::str::from_utf8`: whether bytes are well-formed UTF-8, one byte at a time.
use Prim.Native.Nat.{ℕ, zero, suc}
use mathlib.Core.Bool.{Bool, true, false, ◌&&◌}
use mathlib.Core.List.{[], ◌∷◌, ◌++◌}
use grpc_server_rust.Prelude.Tests.{ltb, leb, ◌==◌, if◌then◌else◌}
use grpc_server_rust.Prelude.Text.{Bytes, Str}

-- `inside lo hi more`: the next byte is in `lo`..=`hi`, and `more` continuation bytes follow it.
pub data Utf8 : Type 0 where
  start bad : Utf8
  inside : ℕ → ℕ → ℕ → Utf8

between : ℕ → ℕ → ℕ → Bool
between lo hi b = leb lo b && leb b hi

first_byte : ℕ → Utf8
unfolding between
first_byte b =
    if ltb b 0x80
    then start
    else if between 0xc2 0xdf b
    then inside 0x80 0xbf 0
    else if b == 0xe0
    then inside 0xa0 0xbf 1
    else if b == 0xed
    then inside 0x80 0x9f 1
    else if between 0xe1 0xef b
    then inside 0x80 0xbf 1
    else if b == 0xf0
    then inside 0x90 0xbf 2
    else if between 0xf1 0xf3 b
    then inside 0x80 0xbf 2
    else if b == 0xf4
    then inside 0x80 0x8f 2
    else bad

rest_of : ℕ → Utf8
rest_of zero = start
rest_of (suc n) = inside 0x80 0xbf n

next_byte : Utf8 → ℕ → Utf8
unfolding first_byte rest_of
next_byte start b = first_byte b
next_byte bad b = bad
next_byte (inside lo hi more) b = if between lo hi b then rest_of more else bad

utf8_from : Utf8 → Bytes → Bool
unfolding next_byte
utf8_from start [] = true
utf8_from bad [] = false
utf8_from (inside lo hi more) [] = false
utf8_from s (b ∷ bytes) = utf8_from (next_byte s b) bytes

unfoldable pub is_utf8 : Bytes → Bool
unfolding utf8_from
is_utf8 bytes = utf8_from start bytes

-- `std::str::from_utf8(bytes).unwrap_or(text)`
abbrev pub utf8_or : Bytes → Str → Str
utf8_or bytes text = if is_utf8 bytes then bytes else text

-- `String::from_utf8_lossy`: each longest prefix of a character that does not go on, and each byte
-- that cannot start one, becomes U+FFFD. The state is the decoder's and the bytes that it holds back.
abbrev replacement : Str
replacement = 0xef ∷ 0xbf ∷ 0xbd ∷ []

lossy_start : Str → ℕ → Utf8 → Str × Utf8 × Bytes
lossy_start out b start = (out ++ b ∷ [], start, [])
lossy_start out b bad = (out ++ replacement, start, [])
lossy_start out b (inside lo hi more) = (out, inside lo hi more, b ∷ [])

-- The state before a byte, and the state that the byte leads to.
lossy_byte : Utf8 → Bytes → ℕ → Utf8 → Str × Utf8 × Bytes
unfolding lossy_start first_byte
lossy_byte (inside lo hi more) held b start = (held ++ b ∷ [], start, [])
lossy_byte (inside lo hi more) held b (inside lo' hi' more') =
    ([], inside lo' hi' more', held ++ b ∷ [])
lossy_byte (inside lo hi more) held b bad = lossy_start replacement b (first_byte b)
lossy_byte s held b s' = lossy_start [] b (first_byte b)

lossy_from : Utf8 → Bytes → Bytes → Str
unfolding lossy_byte next_byte
lossy_from (inside lo hi more) held [] = replacement
lossy_from start held [] = []
lossy_from bad held [] = []
lossy_from s held (b ∷ bytes) =
    let (out, s', held') = lossy_byte s held b (next_byte s b) in out ++ lossy_from s' held' bytes

unfoldable pub from_utf8_lossy : Bytes → Str
unfolding lossy_from
from_utf8_lossy bytes = lossy_from start [] bytes
