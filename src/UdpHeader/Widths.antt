-- ===== src/UdpHeader/Widths.antt =====
-- The widths of the fields of a header of src-tauri/src/udp_header.rs, as tests.
use grpc_server_rust.Prelude.{
  ℕ, zero, suc, ◌+◌, ◌*◌, ◌≤◌, ◌<◌, ◌≡◌, refl, ap, ◌∙◌, arith, Bool, true, ◌&&◌, ltb, leb, ◌==◌,
  Option, none, some, [], ◌∷◌, ◌++◌, Bytes, length, drop, All,
}
use grpc_server_rust.Models.{UdpHeader, UdpHeaderOption}
use grpc_server_rust.UdpHeader.{at}
use grpc_server_rust.UdpHeader.Fields.{standard_length, standard_header, option_at, IsAccepted}
use grpc_server_rust.UdpHeader.Layout.{
  bytes16, encode_option, encode, IsEncodable, OptionFits, bytes32,
}
use grpc_server_rust.UdpHeader.Recovery.{
  IsByte, at-IsByte, after_option, after_header, encode-standard_header,
}

abbrev pub all_bytes : Bytes → Bool
all_bytes [] = true
all_bytes (b ∷ bytes) = ltb b 256 && all_bytes bytes

pub all_bytes-All : (bytes : Bytes) → all_bytes bytes ≡ true → All IsByte bytes
all_bytes-All [] h = tt
all_bytes-All (b ∷ bytes) h = (ground (arith, h), all_bytes-All bytes (ground (arith, h)))

all_bytes-drop : (n : ℕ) (bytes : Bytes) → all_bytes bytes ≡ true → all_bytes (drop n bytes) ≡ true
all_bytes-drop zero bytes h = h
all_bytes-drop (suc n) [] h = refl
all_bytes-drop (suc n) (b ∷ bytes) h = all_bytes-drop n bytes (ground (arith, h))

all_bytes-after_option :
    (o : Option UdpHeaderOption) (bytes : Bytes)
    → all_bytes bytes ≡ true
    → all_bytes (after_option o bytes) ≡ true
all_bytes-after_option none bytes h = all_bytes-drop 12 bytes h
all_bytes-after_option (some o) bytes h = all_bytes-drop 16 bytes h

-- An option exactly where the header length says so, with its fields within their widths.
abbrev pub option_fits : ℕ → Option UdpHeaderOption → Bool
option_fits header_length none = header_length == 12
option_fits header_length (some o) =
    ltb 12 header_length && ltb o.option_type 256 && ltb o.length 256 && ltb o.segment_number 32768

unfoldable pub fields_fit : UdpHeader → Bool
fields_fit h =
    ltb h.version 16
    && leb 12 h.header_length
    && ltb h.header_length 256
    && ltb h.et 16
    && ltb h.message_length 65536
    && ltb h.message_generator_id 4294967296
    && ltb h.message_id 4294967296
    && option_fits h.header_length h.option

-- A header with the bytes behind it, as many as its length asks for.
unfoldable pub is_packet : UdpHeader × Bytes → Bool
unfolding fields_fit
is_packet (h, rest) =
    fields_fit h && (all_bytes rest && leb h.header_length (length (encode h rest)))

and_true : {a b : Bool} → a ≡ true → b ≡ true → (a && b) ≡ true
and_true p q = rw (p, q)

option_fits-option_at :
    (bytes : Bytes) (n : ℕ)
    → all_bytes bytes ≡ true
    → 12 ≤ n
    → option_fits n (option_at bytes n) ≡ true
option_fits-option_at bytes n h low =
    ground (
      arith,
      at-IsByte bytes 12 (all_bytes-All bytes h),
      at-IsByte bytes 13 (all_bytes-All bytes h),
    )

module _ (bytes : Bytes) (h : all_bytes bytes ≡ true) where
  byte : (i : ℕ) → at bytes i < 256
  byte i = at-IsByte bytes i (all_bytes-All bytes h)

  fields_fit-standard_header :
      12 ≤ standard_length bytes → fields_fit (standard_header bytes) ≡ true
  unfolding fields_fit
  fields_fit-standard_header low = ground (
    arith,
    option_fits-option_at bytes (standard_length bytes) h low,
    byte 0,
    byte 1,
    byte 2,
    byte 3,
    byte 4,
    byte 5,
    byte 6,
    byte 7,
    byte 8,
    byte 9,
    byte 10,
    byte 11,
  )

  pub is_packet-standard_header :
      IsAccepted bytes (standard_length bytes)
      → is_packet (standard_header bytes, after_header bytes) ≡ true
  unfolding is_packet
  is_packet-standard_header accepted =
      let whole : leb (standard_length bytes) (length bytes) ≡ true = ground (arith, accepted.1) in
      and_true (fields_fit-standard_header accepted.0) (
        and_true (all_bytes-after_option (standard_header bytes).option bytes h) (
          ap (λ b. leb (standard_length bytes) (length b))
            (encode-standard_header bytes (all_bytes-All bytes h) accepted)
          ∙ whole))

option_fits-OptionFits :
    (n : ℕ) (o : Option UdpHeaderOption) → option_fits n o ≡ true → OptionFits n o
option_fits-OptionFits n none f = ground (arith, f)
option_fits-OptionFits n (some o) f = ground (arith, f)

pub IsEncodable-fields_fit : (h : UdpHeader) → fields_fit h ≡ true → IsEncodable h
unfolding fields_fit
IsEncodable-fields_fit h f = record {
  version_fits = ground (arith, f);
  length_fits = ground (arith, f);
  length_low = ground (arith, f);
  et_fits = ground (arith, f);
  option_fits = option_fits-OptionFits h.header_length h.option (ground (arith, f));
}

all_bytes-append :
    (xs ys : Bytes) → all_bytes xs ≡ true → all_bytes ys ≡ true → all_bytes (xs ++ ys) ≡ true
all_bytes-append [] ys hx hy = hy
all_bytes-append (x ∷ xs) ys hx hy = ground (arith, all_bytes-append xs ys (ground (arith, hx)) hy)

all_bytes-bytes16 : (w : ℕ) → w < 65536 → all_bytes (bytes16 w) ≡ true
all_bytes-bytes16 w h = ground arith

all_bytes-bytes32 : (w : ℕ) → w < 4294967296 → all_bytes (bytes32 w) ≡ true
all_bytes-bytes32 w h = ground arith

all_bytes-encode_option :
    (n : ℕ) (o : Option UdpHeaderOption)
    → option_fits n o ≡ true
    → all_bytes (encode_option o) ≡ true
all_bytes-encode_option n none f = refl
all_bytes-encode_option n (some o) f = ground (arith, f)

pub all_bytes-encode :
    (h : UdpHeader) (rest : Bytes)
    → fields_fit h ≡ true
    → all_bytes rest ≡ true
    → all_bytes (encode h rest) ≡ true
unfolding fields_fit
all_bytes-encode h rest f b =
    let first : h.version * 4096 + h.header_length * 16 + h.et < 65536 = ground (arith, f) in
    let option : option_fits h.header_length h.option ≡ true = ground (arith, f) in
    let options = encode_option h.option ++ rest in
    let ids = bytes32 h.message_id ++ options in
    let generators = bytes32 h.message_generator_id ++ ids in
    let lengths = bytes16 h.message_length ++ generators in
    all_bytes-append (bytes16 (h.version * 4096 + h.header_length * 16 + h.et)) lengths
      (all_bytes-bytes16 (h.version * 4096 + h.header_length * 16 + h.et) first)
      (all_bytes-append (bytes16 h.message_length) generators
        (all_bytes-bytes16 h.message_length (ground (arith, f)))
        (all_bytes-append (bytes32 h.message_generator_id) ids
          (all_bytes-bytes32 h.message_generator_id (ground (arith, f)))
          (all_bytes-append (bytes32 h.message_id) options
            (all_bytes-bytes32 h.message_id (ground (arith, f)))
            (all_bytes-append (encode_option h.option) rest
              (all_bytes-encode_option h.header_length h.option option) b))))
