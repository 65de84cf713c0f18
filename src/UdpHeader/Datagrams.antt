-- ===== src/UdpHeader/Datagrams.antt =====
-- The standard parser of src-tauri/src/udp_header.rs as a map between two types: the datagrams that it
-- takes, each with its answer, and the headers within their widths, each with what stands behind it.
use mathlib.Core.Equiv.{IsEquiv, iso_to_equiv}
use mathlib.Core.HLevel.{Σ_prop_path}
use mathlib.Core.Path.{subst}
use grpc_server_rust.Prelude.{◌≡◌, refl, sym, ap, arith, true, Option, none, some, Bytes}
use grpc_server_rust.Error.{ok}
use grpc_server_rust.Models.{UdpHeader, UdpHeaderOption}
use grpc_server_rust.UdpHeader.{parse_udp_header}
use grpc_server_rust.UdpHeader.Fields.{parse_udp_header-IsAccepted}
use grpc_server_rust.UdpHeader.Layout.{encode, parse_udp_header-encode}
use grpc_server_rust.UdpHeader.Recovery.{after_option, encode-standard_header}
use grpc_server_rust.UdpHeader.Widths.{
  all_bytes, all_bytes-All, fields_fit, is_packet, IsEncodable-fields_fit, all_bytes-encode,
  is_packet-standard_header,
}

-- Bytes that the parser takes, with its answer.
abbrev pub IsRead : Bytes × UdpHeader → Type 0
IsRead (bytes, h) = (all_bytes bytes ≡ true) × (parse_udp_header {F = Unit {0}} bytes ≡ ok h)

abbrev pub Datagram : Type 0
Datagram = (p : Bytes × UdpHeader) × IsRead p

abbrev pub Packet : Type 0
Packet = (p : UdpHeader × Bytes) × (is_packet p ≡ true)

-- What is read of a datagram, by the answer of the parser.
pub read_packet :
    (bytes : Bytes) (h : UdpHeader)
    → all_bytes bytes ≡ true
    → parse_udp_header {F = Unit {0}} bytes ≡ ok h
    → (is_packet (h, after_option h.option bytes) ≡ true)
      × (encode h (after_option h.option bytes) ≡ bytes)
read_packet bytes h b parsed =
    let (accepted, same) = parse_udp_header-IsAccepted bytes h parsed in
    subst
      (λ h.
        (is_packet (h, after_option h.option bytes) ≡ true)
        × (encode h (after_option h.option bytes) ≡ bytes))
      (sym same)
      (
        is_packet-standard_header bytes b accepted,
        encode-standard_header bytes (all_bytes-All bytes b) accepted,
      )

after_option-encode : (h : UdpHeader) (rest : Bytes) → after_option h.option (encode h rest) ≡ rest
after_option-encode h rest = at_option h.option
  where
    at_option :
        (o : Option UdpHeaderOption) → after_option o (encode (record h { option = o }) rest) ≡ rest
    at_option none = refl
    at_option (some o) = refl

-- What is parsed of a packet's bytes.
pub parse_packet :
    (h : UdpHeader) (rest : Bytes)
    → is_packet (h, rest) ≡ true
    → (all_bytes (encode h rest) ≡ true) × (parse_udp_header {F = Unit {0}} (encode h rest) ≡ ok h)
unfolding is_packet
parse_packet h rest p =
    let fits : fields_fit h ≡ true = ground (arith, p) in
    (
      all_bytes-encode h rest fits (ground (arith, p)),
      parse_udp_header-encode h rest (IsEncodable-fields_fit h fits) (ground (arith, p)),
    )

-- The header that the parser answers for a datagram, with what stands behind it.
abbrev pub parsed_packet : Datagram → Packet
parsed_packet ((bytes, h), (b, parsed)) =
    ((h, after_option h.option bytes), (read_packet bytes h b parsed).0)

abbrev pub packet_bytes : Packet → Datagram
packet_bytes ((h, rest), p) = ((encode h rest, h), parse_packet h rest p)

-- The standard parser, as a map from the datagrams of bytes that it takes to the headers within their
-- widths with as many bytes behind them as the header length asks for, is an equivalence: no two
-- datagrams are read alike, and each such header and rest is read of one datagram.
pub parsed_packet-IsEquiv : IsEquiv parsed_packet
parsed_packet-IsEquiv =
    (iso_to_equiv (record {
      fun = parsed_packet;
      inv = packet_bytes;
      rinv = λ ((h, rest), p).
          Σ_prop_path (λ _. hlevel) (ap (λ t. (h, t)) (after_option-encode h rest));
      linv = λ ((bytes, h), (b, parsed)).
          Σ_prop_path {B = IsRead} (λ p. hlevel)
            (ap (λ t. (t, h)) (read_packet bytes h b parsed).1);
    })).1
