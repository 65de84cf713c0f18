-- ===== src/UdpHeader/UnitTests.antt =====
-- The unit tests in src-tauri/src/udp_header.rs on the functions of the model. A test is true where it
-- passes; an `unwrap` of an error is a panic, so that the test fails.
use grpc_server_rust.Prelude.{
  ◌≡◌, refl, Bool, true, false, ◌&&◌, ◌==◌, [], ◌∷◌, Bytes, length, replicate, is_none,
}
use grpc_server_rust.Error.{Outcome, ok, err}
use grpc_server_rust.UdpHeader.{
  parse_udp_header, parse_udp_header_mobile, parse_option_field, extract_payload,
}

-- A test that goes on with the value of `unwrap()`.
abbrev unwrapped : {E A : Type 0} → Outcome E A → (A → Bool) → Bool
unwrapped (ok a) test = test a
unwrapped (err e) test = false

abbrev is_err : {E A : Type 0} → Outcome E A → Bool
is_err (ok a) = false
is_err (err e) = true

-- The datagram of the first two tests.
abbrev minimal_datagram : Bytes
minimal_datagram =
    0x10 ∷ 0x0c ∷ 0x00 ∷ 0x64 ∷ 0x00 ∷ 0x00 ∷ 0x00 ∷ 0x01 ∷ 0x00 ∷ 0x00 ∷ 0x00 ∷ 0x02 ∷ []

abbrev test_parse_standard_header_minimal : Type 0 → Bool
test_parse_standard_header_minimal F =
    unwrapped (parse_udp_header {F = F} minimal_datagram) (λ header.
      header.version == 1
      && header.et == 0
      && header.header_length == 12
      && header.message_length == 100
      && header.message_generator_id == 1
      && header.message_id == 2
      && is_none header.option)

abbrev test_parse_mobile_header_minimal : Type 0 → Bool
test_parse_mobile_header_minimal F =
    unwrapped (parse_udp_header_mobile {F = F} minimal_datagram) (λ header.
      header.version == 1
      && header.standard == 0
      && header.header_length == 12
      && header.message_length == 100
      && is_none header.option)

abbrev test_parse_header_too_short : Type 0 → Bool
test_parse_header_too_short F =
    is_err (parse_udp_header {F = F} (replicate 8 0))
    && is_err (parse_udp_header_mobile {F = F} (replicate 8 0))

abbrev test_parse_option_field : Bool
test_parse_option_field =
    let option = parse_option_field (0x01 ∷ 0x04 ∷ 0x00 ∷ 0x03 ∷ []) in
    option.option_type == 1 && option.length == 4 && option.segment_number == 1 && option.last

abbrev test_extract_payload : Bool
test_extract_payload = length (extract_payload (replicate 20 0) 12) == 8

-- Of the five tests the first two fail, and the others pass.
unit_tests :
    (F : Type 0)
    → (test_parse_standard_header_minimal F ≡ false)
      × (test_parse_mobile_header_minimal F ≡ false)
      × (test_parse_header_too_short F ≡ true)
      × (test_parse_option_field ≡ true)
      × (test_extract_payload ≡ true)
unfolding parse_udp_header parse_udp_header_mobile parse_option_field extract_payload
unit_tests F = (refl, refl, refl, refl, refl)
