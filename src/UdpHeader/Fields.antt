-- ===== src/UdpHeader/Fields.antt =====
-- The masks and shifts of the parsers as arithmetic on the first word.
use grpc_server_rust.Prelude.{
  ℕ, ◌+◌, ◌/◌, ◌%◌, ◌≤◌, ◌<◌, ◌≡◌, ◌∙◌, ◌⊎◌, arith, not, ◌==◌, ltb, Option, none, some, Bytes, take,
  drop, get_or-drop, get_or-take, length, if◌then◌else◌,
}
use grpc_server_rust.Prelude.Bits.{
  low_bit, low_nibble, low_byte, middle_byte, top_nibble, top_three_bits, standard_bit,
  all_but_low_bit,
}
use grpc_server_rust.Error.{ok}
use grpc_server_rust.Models.{UdpHeader, UdpHeaderMobile, UdpHeaderOption}
use grpc_server_rust.UdpHeader.{
  at, be16, be32, parse_option_field, parse_udp_header, parse_udp_header_mobile,
}

abbrev pub first_word : Bytes → ℕ
first_word bytes = be16 (at bytes 0) (at bytes 1)

-- The header length that each parser reads.
abbrev pub standard_length : Bytes → ℕ
standard_length bytes = first_word bytes / 16 % 256

abbrev pub mobile_length : Bytes → ℕ
mobile_length bytes = first_word bytes % 256

-- The option, read in plain arithmetic.
abbrev pub option_of : Bytes → UdpHeaderOption
option_of bytes = record {
  option_type = at bytes 12;
  length = at bytes 13;
  segment_number = be16 (at bytes 14) (at bytes 15) / 2 % 32768;
  last = not (be16 (at bytes 14) (at bytes 15) % 2 == 0);
}

abbrev pub option_at : Bytes → ℕ → Option UdpHeaderOption
option_at bytes header_length = if ltb 12 header_length then some (option_of bytes) else none

abbrev pub standard_header : Bytes → UdpHeader
standard_header bytes = record {
  version = first_word bytes / 4096 % 16;
  header_length = standard_length bytes;
  et = first_word bytes % 16;
  message_length = be16 (at bytes 2) (at bytes 3);
  message_generator_id = be32 (at bytes 4) (at bytes 5) (at bytes 6) (at bytes 7);
  message_id = be32 (at bytes 8) (at bytes 9) (at bytes 10) (at bytes 11);
  option = option_at bytes (standard_length bytes);
}

abbrev pub mobile_header : Bytes → UdpHeaderMobile
mobile_header bytes = record {
  version = first_word bytes / 8192 % 8;
  standard = first_word bytes / 4096 % 2;
  header_length = mobile_length bytes;
  et = first_word bytes % 16;
  message_length = be16 (at bytes 2) (at bytes 3);
  message_domain_id = be32 (at bytes 4) (at bytes 5) (at bytes 6) (at bytes 7);
  message_id = be32 (at bytes 8) (at bytes 9) (at bytes 10) (at bytes 11);
  option = option_at bytes (mobile_length bytes);
}

-- The datagrams that a parser takes, by the header length that it reads.
abbrev pub IsAccepted : Bytes → ℕ → Type 0
IsAccepted bytes header_length =
    (12 ≤ header_length)
    × (header_length ≤ length bytes)
    × ((header_length ≡ 12) ⊎ (16 ≤ length bytes))

at_option : (bytes : Bytes) (i : ℕ) → i < 4 → at (take 4 (drop 12 bytes)) i ≡ at bytes (12 + i)
at_option bytes i h = get_or-take (drop 12 bytes) 4 i 0 h ∙ get_or-drop bytes 12 i 0

parse_option_field-option_of :
    (bytes : Bytes) → parse_option_field (take 4 (drop 12 bytes)) ≡ option_of bytes
unfolding parse_option_field
parse_option_field-option_of bytes = simp (
  at_option bytes 0 (omega arith),
  at_option bytes 1 (omega arith),
  at_option bytes 2 (omega arith),
  at_option bytes 3 (omega arith),
  low_bit,
  all_but_low_bit,
)

module _ {F : Type 0} (bytes : Bytes) where
  -- A datagram whose header length is at least 12, at most the number of its bytes, and 12 where
  -- there are fewer than 16 bytes is parsed, and the fields are those of the first 16 bytes.
  pub parse_udp_header-standard_header :
      IsAccepted bytes (standard_length bytes)
      → parse_udp_header {F = F} bytes ≡ ok (standard_header bytes)
  unfolding parse_udp_header
  parse_udp_header-standard_header h =
      rw (middle_byte, top_nibble, low_nibble) (ground (arith, parse_option_field-option_of bytes))

  pub parse_udp_header-IsAccepted :
      (h : UdpHeader)
      → parse_udp_header {F = F} bytes ≡ ok h
      → IsAccepted bytes (standard_length bytes) × (h ≡ standard_header bytes)
  unfolding parse_udp_header
  parse_udp_header-IsAccepted h e = ground (
    arith,
    middle_byte (first_word bytes),
    top_nibble (first_word bytes),
    low_nibble (first_word bytes),
    parse_option_field-option_of bytes,
  )

  pub parse_udp_header_mobile-mobile_header :
      IsAccepted bytes (mobile_length bytes)
      → parse_udp_header_mobile {F = F} bytes ≡ ok (mobile_header bytes)
  unfolding parse_udp_header_mobile
  parse_udp_header_mobile-mobile_header h =
      rw (low_byte, top_three_bits, standard_bit, low_nibble)
        (ground (arith, parse_option_field-option_of bytes))

  pub parse_udp_header_mobile-IsAccepted :
      (h : UdpHeaderMobile)
      → parse_udp_header_mobile {F = F} bytes ≡ ok h
      → IsAccepted bytes (mobile_length bytes) × (h ≡ mobile_header bytes)
  unfolding parse_udp_header_mobile
  parse_udp_header_mobile-IsAccepted h e = ground (
    arith,
    low_byte (first_word bytes),
    top_three_bits (first_word bytes),
    standard_bit (first_word bytes),
    low_nibble (first_word bytes),
    parse_option_field-option_of bytes,
  )
