-- ===== src/Udp/Printing.antt =====
-- The texts that the UDP server of src-tauri/src/dialout/udp.rs logs, and its configuration.
use grpc_server_rust.Prelude.{
  ℕ, ◌/◌, ◌%◌, Bool, List, [], ◌∷◌, ◌++◌, Bytes, Str, str, fmt_nat, get_or, unwrap_or,
  if◌then◌else◌,
}
use grpc_server_rust.Error.{ok, err}
use grpc_server_rust.Log.{info, error, LogLine, newline, quote}
use grpc_server_rust.Wire.{Json, DialoutCodec, DialoutMsg}
use grpc_server_rust.Models.{UdpHeader}
use grpc_server_rust.UdpHeader.{header_bytes}

pub record UdpConfig : Type 0 where
  pub port : ℕ
  pub orignal : Bool
  pub format_json : Bool
  pub including_default : Bool
  pub performance_mode : Bool

abbrev pub hex_digits : Bytes
hex_digits = str "0123456789abcdef"

-- `b >> 4` and `b & 0x0f` on a byte
unfoldable pub hex_encode : Bytes → Str
hex_encode [] = []
hex_encode (b ∷ rest) =
    get_or hex_digits (b / 16) 0 ∷ get_or hex_digits (b % 16) 0 ∷ hex_encode rest

-- The line on a parsed header.
unfoldable pub head_line : Bytes → UdpHeader → LogLine
unfolding hex_encode
head_line bytes h = (
  info,
  str "UDP Head:"
      ++ newline
      ++ str "Original:0x"
      ++ hex_encode (header_bytes bytes h.header_length)
      ++ newline
      ++ str "Version:"
      ++ fmt_nat h.version
      ++ str " ET:"
      ++ fmt_nat h.et
      ++ str " HeaderLen:"
      ++ fmt_nat h.header_length
      ++ str " MsgLen:"
      ++ fmt_nat h.message_length
      ++ str " DomainID:"
      ++ fmt_nat h.message_generator_id
      ++ str " MsgID:"
      ++ fmt_nat h.message_id,
)

-- The rule that closes each output.
unfoldable pub count_line : Str → ℕ → Str → Str
count_line ip_type count addr =
    str "=============="
    ++ ip_type
    ++ str " gRPC UDP 2-layer server count: "
    ++ fmt_nat count
    ++ str ", source addr: "
    ++ addr
    ++ str "=============="

module _ (json : Json) (codec : DialoutCodec) where
  unfoldable pub print_original_json : Bytes → Str → ℕ → Str → List LogLine
  unfolding count_line
  print_original_json bytes ip_type count addr =
      elim (codec.decode bytes) [
        | ok msg ↦ (
          info,
          str "original msg:"
              ++ newline
              ++ unwrap_or (json.string_pretty (codec.debug msg)) (codec.debug msg),
        )
        | err e ↦ (error, str "Message deserialization failed: " ++ quote e)
      ]
      ∷ (info, count_line ip_type count addr)
      ∷ []

  -- `to_string_pretty` or `to_string`, and the text itself where that fails
  unfoldable pub format_value : Bool → json.Value → Str → Str
  format_value format_json val text =
      if format_json
      then unwrap_or (json.to_string_pretty val) text
      else unwrap_or (json.to_string val) text

  -- The line on a decoded message.
  unfoldable pub message_line : UdpConfig → DialoutMsg → LogLine
  unfolding format_value
  message_line config msg =
      let head =
        str "DialoutMsg:" ++ newline ++ str "sensorPath: " ++ quote msg.sensor_path ++ newline in
      elim (json.from_slice msg.json_data) [
        | ok val ↦ (
          info,
          head
              ++ str "JsonData:"
              ++ newline
              ++ format_value config.format_json val msg.json_data
              ++ newline,
        )
        | err e ↦ (
          error,
          head
              ++ str "OrignalData:"
              ++ newline
              ++ msg.json_data
              ++ newline
              ++ str "json format error with: "
              ++ quote e,
        )
      ]

  unfoldable pub deserialize_and_print : Bytes → Str → ℕ → Str → UdpConfig → List LogLine
  unfolding message_line count_line
  deserialize_and_print bytes ip_type count addr config =
      elim (codec.decode bytes) [
        | ok msg ↦ message_line config msg
        | err e ↦ (error, str "Message deserialization failed: " ++ quote e)
      ]
      ∷ (info, count_line ip_type count addr ++ newline)
      ∷ []

  -- The end of `process_udp_packet`.
  unfoldable pub output : Bytes → Str → ℕ → Str → UdpConfig → List LogLine
  unfolding print_original_json deserialize_and_print
  output payload ip_type count addr config =
      if config.orignal
      then print_original_json payload ip_type count addr
      else deserialize_and_print payload ip_type count addr config
