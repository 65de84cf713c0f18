-- ===== src/Tests/UdpRuns.antt =====
-- src-tauri/src/udp_header.rs and src-tauri/src/dialout/udp.rs at work.
use grpc_server_rust.Prelude.{
  ◌+◌, ◌*◌, ◌≡◌, refl, ◌↔◌, arith, Bool, true, false, none, some, [], ◌∷◌, ◌++◌, Str, str, Bytes,
  length, All, List,
}
use grpc_server_rust.Error.{ok, err, udp_parse, display}
use grpc_server_rust.Log.{warn}
use grpc_server_rust.Models.{UdpHeader}
use grpc_server_rust.UdpHeader.{below_minimum_header, parse_udp_header, parse_udp_header_mobile}
use grpc_server_rust.UdpHeader.Fields.{
  standard_header, standard_length, mobile_length, mobile_header, IsAccepted,
}
use grpc_server_rust.UdpHeader.Layout.{
  encode, parse_udp_header_iff, parse_udp_header_mobile_iff, documented_layout_refused,
}
use grpc_server_rust.Udp.Printing.{UdpConfig, hex_encode, output}
use grpc_server_rust.Udp.{
  Listener, start_listener, process_udp_packet, run_udp_listener, Event, stopped, datagram,
}
use grpc_server_rust.Udp.Hex.{hex_decode, IsHexDigit, hex_encode_lem}
use grpc_server_rust.Udp.Packet.{defaulting, documented_fragment_not_assembled}
use grpc_server_rust.Udp.Reassembly.{Fragment, heads_of}
use grpc_server_rust.Udp.Server.{Side, ipv4, ipv6, fresh, Listeners, run_listeners}
use grpc_server_rust.Udp.Streams.{listeners_join_fragments}
use grpc_server_rust.Udp.Counting.{datagrams, performance_mode_lines}
use grpc_server_rust.Tests.Libraries.{any_json, any_codec}

-- The twelve bytes of `test_parse_standard_header_minimal`.
abbrev minimal : Bytes
minimal = 0x10 ∷ 0x0c ∷ 0 ∷ 100 ∷ 0 ∷ 0 ∷ 0 ∷ 1 ∷ 0 ∷ 0 ∷ 0 ∷ 2 ∷ []

-- The same header in the layout that the parser reads: version 1, header length 12, ET 0.
abbrev shifted : Bytes
shifted = 0x10 ∷ 0xc0 ∷ 0 ∷ 100 ∷ 0 ∷ 0 ∷ 0 ∷ 1 ∷ 0 ∷ 0 ∷ 0 ∷ 2 ∷ []

abbrev shifted_header : UdpHeader
shifted_header = record {
  version = 1;
  header_length = 12;
  et = 0;
  message_length = 100;
  message_generator_id = 1;
  message_id = 2;
  option = none;
}

parse_shifted : parse_udp_header {F = Str} shifted ≡ ok shifted_header
unfolding parse_udp_header
parse_shifted = refl

documented_layout_refused_example :
    parse_udp_header {F = Str} minimal ≡ err (udp_parse (below_minimum_header 0))
documented_layout_refused_example =
    documented_layout_refused minimal (omega arith) refl (omega arith)

parse_udp_header_iff_example :
    (parse_udp_header {F = Str} shifted ≡ ok shifted_header)
    ↔ (IsAccepted shifted (standard_length shifted) × (shifted_header ≡ standard_header shifted))
parse_udp_header_iff_example = parse_udp_header_iff shifted shifted_header

parse_udp_header_mobile_iff_example :
    (parse_udp_header_mobile {F = Str} minimal ≡ ok (mobile_header minimal))
    ↔ (IsAccepted minimal (mobile_length minimal) × (mobile_header minimal ≡ mobile_header minimal))
parse_udp_header_mobile_iff_example = parse_udp_header_mobile_iff minimal (mobile_header minimal)

-- ET and header length share their low nibble: 12 and 12.
parse_minimal_mobile : parse_udp_header_mobile {F = Str} minimal ≡ ok (mobile_header minimal)
unfolding parse_udp_header_mobile
parse_minimal_mobile = refl

-- A header with an option: segment 3, the last one or not.
abbrev segment : Bool → UdpHeader
segment last = record {
  version = 1;
  header_length = 16;
  et = 2;
  message_length = 20;
  message_generator_id = 7;
  message_id = 9;
  option = some (record { option_type = 1; length = 4; segment_number = 3; last = last });
}

hex_of_minimal : hex_encode minimal ≡ str "100c00640000000100000002"
unfolding hex_encode
hex_of_minimal = refl

hex_encode_lem_example :
    (length (hex_encode minimal) ≡ 2 * 12)
    × All IsHexDigit (hex_encode minimal)
    × (hex_decode (hex_encode minimal) ≡ minimal)
hex_encode_lem_example = hex_encode_lem minimal (omega arith)

abbrev settings : Bool → UdpConfig
settings performance = record {
  port = 50051;
  orignal = false;
  format_json = true;
  including_default = true;
  performance_mode = performance;
}

abbrev start : Listener
start = start_listener (record { msg_count = 0; client_count = 0 })

abbrev show : Str → Str
show s = s

-- A fragment in the documented layout: ET 0, header length 16, an option that is not the last.
abbrev documented : Bytes
documented = 0x10 ∷ 16 ∷ 0 ∷ 20 ∷ 0 ∷ 0 ∷ 0 ∷ 1 ∷ 0 ∷ 0 ∷ 0 ∷ 2 ∷ 1 ∷ 4 ∷ 0 ∷ 2 ∷ str "abcd"

documented_fragment_not_assembled_example :
    process_udp_packet any_json any_codec show documented
      (str "ipv4")
      1
      (str "h")
      (settings false)
      (str "xy")
    ≡ (
      (
        warn,
        str "Failed to parse UDP header: " ++ display show (udp_parse (below_minimum_header 1)),
      )
          ∷ defaulting
          ∷ output any_json any_codec
              (1 ∷ 4 ∷ 0 ∷ 2 ∷ str "abcd")
              (str "ipv4")
              1
              (str "h")
              (settings false),
      str "xy",
    )
documented_fragment_not_assembled_example =
    documented_fragment_not_assembled any_json any_codec show (str "ipv4") 1 (str "h")
      (settings false) (str "xy") documented (omega arith) refl refl

-- A part from each of two senders, and the last part from the second.
abbrev part : Bool → Str → Str → Fragment
part last addr text = record { bytes = encode (segment last) text; addr = addr; part = text }

abbrev listening : Listeners
listening = record { v4 = fresh; v6 = fresh; stats = start.stats }

abbrev mixed : List (Side × Event)
mixed =
    (ipv4, datagram (encode (segment false) (str "ab")) (str "h1"))
    ∷ (ipv6, datagram minimal (str "h3"))
    ∷ (ipv6, stopped)
    ∷ (ipv4, datagram (encode (segment true) (str "cd")) (str "h2"))
    ∷ []

listeners_join_fragments_example :
    let t = run_listeners any_json any_codec show (settings false) listening mixed in
    (t.v4.chunk_data ≡ [])
    × (t.v4.log
        ≡ heads_of (part false (str "h1") (str "ab") ∷ part true (str "h2") (str "cd") ∷ [])
          ++ output any_json any_codec (str "abcd") (str "ipv4") 2 (str "h2") (settings false))
listeners_join_fragments_example =
    listeners_join_fragments any_json any_codec show (settings false) ipv4 listening mixed
      (part false (str "h1") (str "ab") ∷ []) (part true (str "h2") (str "cd")) refl refl refl
      (
        record {
          accepted = omega arith;
          has_option = omega arith;
          last_bit = refl;
          payload = refl;
        },
        tt,
      )
      (record { accepted = omega arith; has_option = omega arith; last_bit = refl; payload = refl })

performance_mode_lines_example :
    (length
          (run_udp_listener any_json any_codec show
            (settings true)
            (str "ipv4")
            (record start { count = 999 })
            (datagrams ((minimal, str "h") ∷ []))).log
        + 0
      ≡ 0 + 1)
    × ((run_udp_listener any_json any_codec show
          (settings true)
          (str "ipv4")
          (record start { count = 999 })
          (datagrams ((minimal, str "h") ∷ []))).chunk_data
        ≡ [])
performance_mode_lines_example =
    performance_mode_lines any_json any_codec show (str "ipv4") (settings true)
      (record start { count = 999 }) ((minimal, str "h") ∷ []) refl (omega arith)
