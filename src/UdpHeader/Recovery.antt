-- ===== src/UdpHeader/Recovery.antt =====
-- The bytes of a datagram from the header that src-tauri/src/udp_header.rs reads of it.
use grpc_server_rust.Prelude.{
  ℕ, ◌+◌, ◌*◌, ◌/◌, ◌%◌, ◌≤◌, ◌<◌, ◌≡◌, refl, ap, ap₂, ◌∙◌, ◌⊎◌, arith, Bool, true, false, not,
  ◌==◌, ltb, Option, none, some, [], ◌∷◌, ◌++◌, Bytes, length, drop, All, if◌then◌else◌, zero, suc,
  sym,
}
use grpc_server_rust.Models.{UdpHeaderOption}
use grpc_server_rust.UdpHeader.{at, be16, be32}
use grpc_server_rust.UdpHeader.Fields.{
  first_word, standard_length, standard_header, option_of, IsAccepted,
}
use grpc_server_rust.UdpHeader.Layout.{bytes16, bytes32, encode_option, encode}

abbrev pub IsByte : ℕ → Type 0
IsByte b = b < 256

-- What stands behind the header and its option.
abbrev pub after_option : Option UdpHeaderOption → Bytes → Bytes
after_option none bytes = drop 12 bytes
after_option (some o) bytes = drop 16 bytes

abbrev pub after_header : Bytes → Bytes
after_header bytes = after_option (standard_header bytes).option bytes

bytes16-be16 : (a b : ℕ) → IsByte a → IsByte b → bytes16 (be16 a b) ≡ a ∷ b ∷ []
bytes16-be16 a b ha hb = ap₂ (λ x y. x ∷ y ∷ []) (omega arith) (omega arith)

bytes32-be32 :
    (a b c d : ℕ)
    → IsByte a
    → IsByte b
    → IsByte c
    → IsByte d
    → bytes32 (be32 a b c d) ≡ a ∷ b ∷ c ∷ d ∷ []
bytes32-be32 a b c d ha hb hc hd = ground arith

word_parts : (w : ℕ) → w < 65536 → w / 4096 % 16 * 4096 + w / 16 % 256 * 16 + w % 16 ≡ w
word_parts w h = omega arith

segment_parts : (w : ℕ) → w < 65536 → w / 2 % 32768 * 2 + (if not (w % 2 == 0) then 1 else 0) ≡ w
segment_parts w h = ground arith

pub at-IsByte : (bytes : Bytes) (i : ℕ) → All IsByte bytes → IsByte (at bytes i)
at-IsByte [] i h = omega arith
at-IsByte (b ∷ bytes) zero (hb, hbs) = hb
at-IsByte (b ∷ bytes) (suc i) (hb, hbs) = at-IsByte bytes i hbs

drop-at :
    (bytes : Bytes) (i : ℕ) → i < length bytes → drop i bytes ≡ at bytes i ∷ drop (suc i) bytes
drop-at [] i h = absurd (omega arith)
drop-at (b ∷ bytes) zero h = refl
drop-at (b ∷ bytes) (suc i) h = drop-at bytes i (omega arith)

-- Four bytes of a datagram from a place on, before a rest.
abbrev four : Bytes → ℕ → Bytes → Bytes
four bytes i rest =
    at bytes i ∷ at bytes (suc i) ∷ at bytes (suc (suc i)) ∷ at bytes (suc (suc (suc i))) ∷ rest

drop-four :
    (bytes : Bytes) (i : ℕ)
    → suc (suc (suc (suc i))) ≤ length bytes
    → drop i bytes ≡ four bytes i (drop (suc (suc (suc (suc i)))) bytes)
drop-four bytes i h =
    drop-at bytes i (omega arith)
    ∙ ap (λ t. at bytes i ∷ t)
        (drop-at bytes (suc i) (omega arith)
          ∙ ap (λ t. at bytes (suc i) ∷ t)
              (drop-at bytes (suc (suc i)) (omega arith)
                ∙ ap (λ t. at bytes (suc (suc i)) ∷ t)
                    (drop-at bytes (suc (suc (suc i))) (omega arith))))

abbrev first_twelve : Bytes → Bytes → Bytes
first_twelve bytes rest = four bytes 0 (four bytes 4 (four bytes 8 rest))

first_twelve-drop : (bytes : Bytes) → 12 ≤ length bytes → first_twelve bytes (drop 12 bytes) ≡ bytes
first_twelve-drop bytes h = sym (
    drop-four bytes 0 (omega arith)
    ∙ ap (four bytes 0)
        (drop-four bytes 4 (omega arith) ∙ ap (four bytes 4) (drop-four bytes 8 (omega arith))))

module _ (bytes : Bytes) (h : All IsByte bytes) where
  pair-at : (i j : ℕ) → bytes16 (be16 (at bytes i) (at bytes j)) ≡ at bytes i ∷ at bytes j ∷ []
  pair-at i j = bytes16-be16 (at bytes i) (at bytes j) (at-IsByte bytes i h) (at-IsByte bytes j h)

  be16-at : (i j : ℕ) → be16 (at bytes i) (at bytes j) < 65536
  be16-at i j = omega (arith, at-IsByte bytes i h, at-IsByte bytes j h)

  four-at :
      (i : ℕ)
      → bytes32 (
          be32
            (at bytes i)
            (at bytes (suc i))
            (at bytes (suc (suc i)))
            (at bytes (suc (suc (suc i)))))
        ≡ four bytes i []
  four-at i =
      bytes32-be32 (at bytes i) (at bytes (suc i)) (at bytes (suc (suc i)))
        (at bytes (suc (suc (suc i)))) (at-IsByte bytes i h) (at-IsByte bytes (suc i) h)
        (at-IsByte bytes (suc (suc i)) h) (at-IsByte bytes (suc (suc (suc i))) h)

  encode_option-option_of : encode_option (some (option_of bytes)) ≡ four bytes 12 []
  encode_option-option_of =
      ap (λ t. at bytes 12 ∷ at bytes 13 ∷ t)
        (ap bytes16 (segment_parts (be16 (at bytes 14) (at bytes 15)) (be16-at 14 15))
          ∙ pair-at 14 15)

  -- The fields before the option, in bytes.
  encode_fields :
      (o : Option UdpHeaderOption) (rest : Bytes)
      → encode (record (standard_header bytes) { option = o }) rest
        ≡ first_twelve bytes (encode_option o ++ rest)
  encode_fields o rest =
      ap₂ (λ x y. x ++ y) (ap bytes16 (word_parts (first_word bytes) (be16-at 0 1)) ∙ pair-at 0 1)
        (ap₂ (λ x y. x ++ y) (pair-at 2 3)
          (ap₂ (λ x y. x ++ y) (four-at 4) (ap (λ x. x ++ (encode_option o ++ rest)) (four-at 8))))

  -- The rest of a datagram, with its option where there is one.
  option_after :
      (has_option : Bool)
      → (has_option ≡ false) ⊎ (16 ≤ length bytes)
      → let option = if has_option then some (option_of bytes) else none in
        encode_option option ++ after_option option bytes ≡ drop 12 bytes
  option_after false long = refl
  option_after true long =
      ap (λ t. t ++ drop 16 bytes) encode_option-option_of ∙ sym (drop-four bytes 12 (ground arith))

-- A datagram of bytes that the standard parser takes is the encoding of its header, before what stands
-- behind it.
pub encode-standard_header :
    (bytes : Bytes)
    → All IsByte bytes
    → IsAccepted bytes (standard_length bytes)
    → encode (standard_header bytes) (after_header bytes) ≡ bytes
encode-standard_header bytes h (low, long, size) =
    encode_fields bytes h (standard_header bytes).option (after_header bytes)
    ∙ ap (first_twelve bytes) (option_after bytes h (ltb 12 (standard_length bytes)) (ground arith))
    ∙ first_twelve-drop bytes (omega arith)
