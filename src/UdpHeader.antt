-- ===== src/UdpHeader.antt =====
-- src-tauri/src/udp_header.rs. A datagram is the list of its bytes. An index stands behind a test
-- of the length, so the default that `get_or` gives out of range is never read.
pub mod Fields
pub mod Layout
mod UnitTests
pub mod Recovery
pub mod Widths
pub mod Datagrams
use grpc_server_rust.Prelude.{
  ℕ, ◌+◌, ◌*◌, ◌/◌, Bool, true, false, not, ◌==◌, ltb, Option, none, some, List, [], ◌++◌, Bytes,
  Str, str, fmt_nat, get_or, take, drop, length, min, bit_and, if◌then◌else◌,
}
use grpc_server_rust.Error.{Result, ok, udp_parse, fail_if, ◌>>=◌, ◌>>◌}
use grpc_server_rust.Models.{UdpHeader, UdpHeaderMobile, UdpHeaderOption}

abbrev pub udp_header_min_size : ℕ
udp_header_min_size = 12

abbrev pub udp_header_with_option_size : ℕ
udp_header_with_option_size = 16

-- `u16::from_be_bytes` and `u32::from_be_bytes`
abbrev pub be16 : ℕ → ℕ → ℕ
be16 a b = a * 256 + b

abbrev pub be32 : ℕ → ℕ → ℕ → ℕ → ℕ
be32 a b c d = ((a * 256 + b) * 256 + c) * 256 + d

abbrev pub at : Bytes → ℕ → ℕ
at bytes i = get_or bytes i 0

-- The slice that the caller passes is `data[12..16]`.
unfoldable pub parse_option_field : Bytes → UdpHeaderOption
parse_option_field bytes =
    let segment_number_l = be16 (at bytes 2) (at bytes 3) in
    record {
      option_type = at bytes 0;
      length = at bytes 1;
      segment_number = bit_and segment_number_l 0xfffe / 2;
      last = not (bit_and segment_number_l 0x0001 == 0);
    }

-- The texts of the errors, `format!` with two numbers each.
message : Str → ℕ → Str → ℕ → Str
message before a between b = before ++ (fmt_nat a ++ (between ++ fmt_nat b))

unfoldable pub below_minimum_size : ℕ → Str
unfolding message
below_minimum_size n =
    message (str "Data length ") n (str " is less than minimum header size ") udp_header_min_size

unfoldable pub below_minimum_header : ℕ → Str
unfolding message
below_minimum_header n =
    message (str "Header length ") n (str " is less than minimum ") udp_header_min_size

unfoldable pub below_header_length : ℕ → ℕ → Str
unfolding message
below_header_length n header_length =
    message (str "Data length ") n (str " is less than header length ") header_length

unfoldable pub below_option_size : ℕ → Str
unfolding message
below_option_size n =
    message (str "Data length ") n (str " is less than header with option size ")
      udp_header_with_option_size

module _ {F : Type 0} where
  -- The first test, and the two on the header length.
  abbrev pub check_size : Bytes → Result F (Unit {0})
  check_size bytes =
      fail_if (ltb (length bytes) udp_header_min_size)
        (udp_parse (below_minimum_size (length bytes)))

  abbrev pub check_header_length : Bytes → ℕ → Result F (Unit {0})
  check_header_length bytes header_length = do
    fail_if (ltb header_length udp_header_min_size) (udp_parse (below_minimum_header header_length))
    fail_if (ltb (length bytes) header_length)
        (udp_parse (below_header_length (length bytes) header_length))

  -- `if header_length > UDP_HEADER_MIN_SIZE as u16 { … } else { None }`
  abbrev pub parse_option : Bytes → ℕ → Result F (Option UdpHeaderOption)
  parse_option bytes header_length =
      if ltb udp_header_min_size header_length
      then (do
        fail_if (ltb (length bytes) udp_header_with_option_size)
            (udp_parse (below_option_size (length bytes)))
        ok (some (parse_option_field (take 4 (drop 12 bytes)))))
      else ok none

  unfoldable pub parse_udp_header_impl : Bytes → Bool → Result F UdpHeader
  parse_udp_header_impl bytes mobile = do
    check_size bytes
    let first_word = be16 (at bytes 0) (at bytes 1)
    let header_length = bit_and first_word 0x0ff0 / 16
    check_header_length bytes header_length
    option ← parse_option bytes header_length
    ok (record {
      version = bit_and first_word 0xf000 / 4096;
      header_length = header_length;
      et = bit_and first_word 0x000f;
      message_length = be16 (at bytes 2) (at bytes 3);
      message_generator_id = be32 (at bytes 4) (at bytes 5) (at bytes 6) (at bytes 7);
      message_id = be32 (at bytes 8) (at bytes 9) (at bytes 10) (at bytes 11);
      option = option;
    })

  unfoldable pub parse_udp_header : Bytes → Result F UdpHeader
  unfolding parse_udp_header_impl
  parse_udp_header bytes = parse_udp_header_impl bytes false

  unfoldable pub parse_udp_header_mobile_impl : Bytes → Result F UdpHeaderMobile
  parse_udp_header_mobile_impl bytes = do
    check_size bytes
    let first_word = be16 (at bytes 0) (at bytes 1)
    let header_length = bit_and first_word 0x00ff
    check_header_length bytes header_length
    option ← parse_option bytes header_length
    ok (record {
      version = bit_and first_word 0xe000 / 8192;
      standard = bit_and first_word 0x1000 / 4096;
      header_length = header_length;
      et = bit_and first_word 0x000f;
      message_length = be16 (at bytes 2) (at bytes 3);
      message_domain_id = be32 (at bytes 4) (at bytes 5) (at bytes 6) (at bytes 7);
      message_id = be32 (at bytes 8) (at bytes 9) (at bytes 10) (at bytes 11);
      option = option;
    })

  unfoldable pub parse_udp_header_mobile : Bytes → Result F UdpHeaderMobile
  unfolding parse_udp_header_mobile_impl
  parse_udp_header_mobile bytes = parse_udp_header_mobile_impl bytes

unfoldable pub extract_payload : Bytes → ℕ → Bytes
extract_payload bytes header_length =
    if ltb header_length (length bytes) then drop header_length bytes else []

unfoldable pub header_bytes : Bytes → ℕ → Bytes
header_bytes bytes header_length = take (min header_length (length bytes)) bytes
