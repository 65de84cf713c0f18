-- ===== src/UdpHeader/Layout.antt =====
-- What the parsers accept, what they read back, and the layout that the comments draw.
use grpc_server_rust.Prelude.{
  ℕ, ◌+◌, ◌*◌, ◌/◌, ◌%◌, ◌≤◌, ◌<◌, ◌≡◌, ap, ◌∙◌, ◌↔◌, ◌⊎◌, inl, inr, arith, Option, none, some, [],
  ◌∷◌, ◌++◌, Bytes, length, if◌then◌else◌, bit_and,
}
use grpc_server_rust.Prelude.Bits.{middle_byte}
use grpc_server_rust.Error.{ok, err, udp_parse}
use grpc_server_rust.Models.{UdpHeader, UdpHeaderMobile, UdpHeaderOption}
use grpc_server_rust.UdpHeader.{at, below_minimum_header, parse_udp_header, parse_udp_header_mobile}
use grpc_server_rust.UdpHeader.Fields.{
  first_word, standard_length, mobile_length, standard_header, mobile_header, option_at, IsAccepted,
  parse_udp_header-standard_header, parse_udp_header-IsAccepted,
  parse_udp_header_mobile-mobile_header, parse_udp_header_mobile-IsAccepted,
}

-- The standard parser answers `h` exactly for the datagrams whose header length (bits 4 to 11 of
-- the first word) is at least 12, at most the number of bytes, and 12 where there are fewer than
-- 16 bytes, and `h` then holds the fields of the first 16 bytes in plain arithmetic.
pub parse_udp_header_iff :
    {F : Type 0} (bytes : Bytes) (h : UdpHeader)
    → (parse_udp_header {F = F} bytes ≡ ok h)
      ↔ (IsAccepted bytes (standard_length bytes) × (h ≡ standard_header bytes))
parse_udp_header_iff bytes h =
    (parse_udp_header-IsAccepted bytes h, λ p. rw p.1 (parse_udp_header-standard_header bytes p.0))

-- The same for the mobile parser, whose header length is the low byte of the first word.
pub parse_udp_header_mobile_iff :
    {F : Type 0} (bytes : Bytes) (h : UdpHeaderMobile)
    → (parse_udp_header_mobile {F = F} bytes ≡ ok h)
      ↔ (IsAccepted bytes (mobile_length bytes) × (h ≡ mobile_header bytes))
parse_udp_header_mobile_iff bytes h = (
  parse_udp_header_mobile-IsAccepted bytes h,
  λ p. rw p.1 (parse_udp_header_mobile-mobile_header bytes p.0),
)

abbrev pub bytes16 : ℕ → Bytes
bytes16 w = w / 256 ∷ w % 256 ∷ []

abbrev pub bytes32 : ℕ → Bytes
bytes32 w = w / 16777216 ∷ w / 65536 % 256 ∷ w / 256 % 256 ∷ w % 256 ∷ []

abbrev pub encode_option : Option UdpHeaderOption → Bytes
encode_option none = []
encode_option (some o) =
    o.option_type ∷ o.length ∷ bytes16 (o.segment_number * 2 + (if o.last then 1 else 0))

-- A header as the standard parser reads it, and what follows it.
abbrev pub encode : UdpHeader → Bytes → Bytes
encode h rest =
    bytes16 (h.version * 4096 + h.header_length * 16 + h.et)
    ++ (bytes16 h.message_length
        ++ (bytes32 h.message_generator_id
            ++ (bytes32 h.message_id ++ (encode_option h.option ++ rest))))

abbrev pub OptionFits : ℕ → Option UdpHeaderOption → Type 0
OptionFits header_length none = header_length ≡ 12
OptionFits header_length (some o) = (12 < header_length) × (o.segment_number < 32768)

-- Each field within its width, and an option exactly where the header length says so.
pub record IsEncodable (h : UdpHeader) : Type 0 where
  pub version_fits : h.version < 16
  pub length_fits : h.header_length < 256
  pub length_low : 12 ≤ h.header_length
  pub et_fits : h.et < 16
  pub option_fits : OptionFits h.header_length h.option

word_fields :
    (h : UdpHeader) (rest : Bytes)
    → IsEncodable h
    → (standard_length (encode h rest) ≡ h.header_length)
      × (first_word (encode h rest) / 4096 % 16 ≡ h.version)
      × (first_word (encode h rest) % 16 ≡ h.et)
word_fields h rest fits = omega arith

module _ (h : UdpHeader) (rest : Bytes) (n : ℕ) where
  abbrev with_option : Option UdpHeaderOption → Bytes
  with_option o = encode (record h { option = o }) rest

  option_at-with_option :
      (o : Option UdpHeaderOption)
      → OptionFits n o
      → (option_at (with_option o) n ≡ o) × ((n ≡ 12) ⊎ (16 ≤ length (with_option o)))
  option_at-with_option none fits = (ground arith, inl fits)
  option_at-with_option (some o) fits = (ground arith, inr (omega arith))

option_at-encode :
    (h : UdpHeader) (rest : Bytes)
    → IsEncodable h
    → (option_at (encode h rest) h.header_length ≡ h.option)
      × ((h.header_length ≡ 12) ⊎ (16 ≤ length (encode h rest)))
option_at-encode h rest fits =
    option_at-with_option h rest h.header_length h.option fits.option_fits

standard_header-encode :
    (h : UdpHeader) (rest : Bytes) → IsEncodable h → standard_header (encode h rest) ≡ h
standard_header-encode h rest fits =
    let (hl, v, et) = word_fields h rest fits in
    rw (hl, v, et, (option_at-encode h rest fits).0) (ground arith)

IsAccepted-encode :
    (h : UdpHeader) (rest : Bytes)
    → IsEncodable h
    → h.header_length ≤ length (encode h rest)
    → IsAccepted (encode h rest) (standard_length (encode h rest))
IsAccepted-encode h rest fits long =
    let (hl, v, et) = word_fields h rest fits in
    rw hl (fits.length_low, long, (option_at-encode h rest fits).1)

-- A header whose version, header length and ET fit 4, 8 and 4 bits, whose header length is 12 with
-- no option or more with an option (its segment number in 15 bits), and which has as many bytes
-- behind it as its length says, is read back from its bytes with every field unchanged.
pub parse_udp_header-encode :
    {F : Type 0} (h : UdpHeader) (rest : Bytes)
    → IsEncodable h
    → h.header_length ≤ length (encode h rest)
    → parse_udp_header {F = F} (encode h rest) ≡ ok h
parse_udp_header-encode h rest fits long =
    parse_udp_header-standard_header (encode h rest) (IsAccepted-encode h rest fits long)
    ∙ ap ok (standard_header-encode h rest fits)

-- In the layout that the comments draw, the low nibble of the first byte is ET and the second byte
-- is the header length. A datagram of at least 12 bytes in that layout, with ET 0 and a header
-- length below 192, is refused by the standard parser: it reads a sixteenth of the header length.
pub documented_layout_refused :
    {F : Type 0} (bytes : Bytes)
    → 12 ≤ length bytes
    → at bytes 0 % 16 ≡ 0
    → at bytes 1 < 192
    → parse_udp_header {F = F} bytes ≡ err (udp_parse (below_minimum_header (at bytes 1 / 16)))
unfolding parse_udp_header
documented_layout_refused bytes long et_zero small =
    let read : bit_and (first_word bytes) 0x0ff0 / 16 ≡ at bytes 1 / 16 =
      omega (arith, middle_byte (first_word bytes)) in
    rw read (ground arith)
