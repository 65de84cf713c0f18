-- ===== src/Gpb/Printing.antt =====
-- The texts that the gRPC 3-layer service of src-tauri/src/dialout/gpb_v3.rs logs: original messages,
-- messages in JSON, and rows that are decoded by the registry.
use grpc_server_rust.Prelude.{
  ℕ, zero, suc, ◌+◌, Bool, none, some, List, [], ◌∷◌, ◌++◌, Bytes, Str, str, fmt_nat, unwrap_or,
  if◌then◌else◌, str_eq,
}
use grpc_server_rust.Prelude.Int.{ℤ, pos, is_zero, fmt_int}
use grpc_server_rust.Error.{Outcome, ok, err}
use grpc_server_rust.Log.{info, error, LogLine, newline, quote}
use grpc_server_rust.Wire.{Json, DialoutV3Args, Telemetry, TelemetryRow, TelemetryCodec}
use grpc_server_rust.Registry.{Registry, find_module, supported_modules}
use grpc_server_rust.Dynamic.{JsonMaker, Reflect, dynamic_message_to_json}

pub record V3Config : Type 0 where
  pub orignal : Bool
  pub format_json : Bool
  pub including_default : Bool
  pub performance_mode : Bool

unfoldable pub rule : ℕ → Str → Str
rule count peer =
    str "==================gRPC 3-layer server count: "
    ++ fmt_nat count
    ++ str " source addr: "
    ++ peer
    ++ str "=================="

-- `{}: "{}"` on a line of its own
abbrev pub labelled : Str → Str → Str
labelled label text = label ++ str ": " ++ quote text

unfoldable pub telemetry_info : DialoutV3Args → Str
telemetry_info r =
    str "telemetryMsg:"
    ++ newline
    ++ labelled (str "ReqId") (fmt_int r.req_id)
    ++ newline
    ++ labelled (str "errors") r.errors
    ++ newline
    ++ labelled (str "totalSize") (fmt_int r.total_size)

unfoldable pub encoding_name : ℤ → Str
encoding_name (pos zero) = str "Encoding_JSON"
encoding_name (pos (suc zero)) = str "Encoding_GPB"
encoding_name n = str "Unknown"

unfoldable pub decode_error_line : DialoutV3Args → Str → ℕ → Str → LogLine
unfolding telemetry_info rule
decode_error_line r e count peer = (
  error,
  telemetry_info r
      ++ newline
      ++ str "gpb decode error with: "
      ++ quote e
      ++ newline
      ++ rule count peer,
)

unfoldable pub msg_info : DialoutV3Args → Telemetry → Str
unfolding telemetry_info encoding_name
msg_info r t =
    telemetry_info r
    ++ newline
    ++ labelled (str "producer_name") t.producer_name
    ++ newline
    ++ labelled (str "node_id_str") t.node_id_str
    ++ newline
    ++ labelled (str "product_name") t.product_name
    ++ newline
    ++ labelled (str "subscription_id_str") t.subscription_id_str
    ++ newline
    ++ labelled (str "sensor_path") t.sensor_path
    ++ newline
    ++ labelled (str "collection_id") (fmt_nat t.collection_id)
    ++ newline
    ++ labelled (str "collection_start_time") (fmt_nat t.collection_start_time)
    ++ newline
    ++ labelled (str "msg_timestamp") (fmt_nat t.msg_timestamp)
    ++ newline
    ++ labelled (str "collection_end_time") (fmt_nat t.collection_end_time)
    ++ newline
    ++ labelled (str "current_period") (fmt_nat t.current_period)
    ++ newline
    ++ labelled (str "except_desc") t.except_desc
    ++ newline
    ++ labelled (str "encoding") (encoding_name t.encoding)

-- `{:?}` of the names of messages; they are identifiers, and nothing of them is escaped.
abbrev names_tail : List Str → Str
names_tail [] = str "]"
names_tail (n ∷ ns) = str ", " ++ quote n ++ names_tail ns

unfoldable pub debug_names : List Str → Str
debug_names [] = str "[]"
debug_names (n ∷ ns) = str "[" ++ quote n ++ names_tail ns

-- One event: a text, the rule, and `body` between them.
unfoldable pub framed : Str → Str → ℕ → Str → LogLine
unfolding rule
framed head body count peer = (info, head ++ newline ++ body ++ newline ++ rule count peer)

-- `print_original_telemetry`
unfoldable pub print_original_telemetry : TelemetryCodec → DialoutV3Args → Bytes → ℕ → Str → LogLine
unfolding telemetry_info framed decode_error_line
print_original_telemetry codec r bytes count peer = elim (codec.decode bytes) [
  | ok t ↦
      framed (telemetry_info r)
        (str "data_str:" ++ newline ++ (if is_zero t.encoding then t.data_str else codec.debug t))
        count peer
  | err e ↦ decode_error_line r e count peer
]

module _ (json : Json) {D K : Type 0} (make : JsonMaker json K) (reflect : Reflect D K)
    (codec : TelemetryCodec) (config : V3Config) (peer : Str) where
  unfoldable pub format_value : json.Value → Str → Str
  format_value val text =
      if config.format_json
      then unwrap_or (json.to_string_pretty val) text
      else unwrap_or (json.to_string val) text

  -- The content of a row behind its heading.
  unfoldable pub row_body : D → TelemetryRow → Str
  unfolding format_value
  row_body module_desc row =
      if str_eq row.content []
      then str "<empty>"
      else elim (reflect.decode module_desc row.content) [
        | ok dynamic_msg ↦ elim (dynamic_message_to_json json make dynamic_msg) [
          | ok val ↦ format_value val (reflect.show dynamic_msg)
          | err e ↦ str "dynamic decode error: " ++ e
        ]
        | err e ↦
            str "content:"
            ++ newline
            ++ str " "
            ++ codec.debug_row row
            ++ newline
            ++ str "gpb format error with: "
            ++ quote e
      ]

  -- The loop over the rows, from the number of those before.
  unfoldable pub rows_text : D → ℕ → List TelemetryRow → Str
  unfolding row_body
  rows_text module_desc row_num [] = []
  rows_text module_desc row_num (row ∷ rows) =
      str "V3 GPB-content row "
      ++ fmt_nat (row_num + 1)
      ++ str " timestamp: "
      ++ quote (fmt_nat row.timestamp)
      ++ newline
      ++ str "content: "
      ++ row_body module_desc row
      ++ newline
      ++ rows_text module_desc (row_num + 1) rows

  -- The registry comes as the answer of its read lock.
  unfoldable pub trans_gpb_content : Outcome Str (Registry D) → Telemetry → Str → ℕ → List LogLine
  unfolding rows_text framed debug_names
  trans_gpb_content registry t head count = elim registry [
    | err e ↦ (error, str "Failed to acquire registry read lock: " ++ e) ∷ []
    | ok reg ↦ elim (find_module reg t.sensor_path) [
      | none ↦
          (
            error,
            str "Cannot find module for sensor_path '"
                ++ t.sensor_path
                ++ str "'. Supported: "
                ++ debug_names (supported_modules reg),
          )
          ∷ []
      | some module_desc ↦
          framed head (elim t.data_gpb [ none ↦ [] | some rows ↦ rows_text module_desc 0 rows ])
            count peer
          ∷ []
    ]
  ]

  -- The line of a message whose text is JSON; `from_str` reads the bytes of the text.
  unfoldable pub json_text_line : Telemetry → Str → ℕ → LogLine
  unfolding framed format_value rule
  json_text_line t head count = elim (json.from_slice t.data_str) [
    | ok val ↦ framed head (str "data_str:" ++ newline ++ format_value val t.data_str) count peer
    | err e ↦ (
      error,
      head
          ++ newline
          ++ str "Orignal data_str:"
          ++ newline
          ++ t.data_str
          ++ newline
          ++ str "json format error with: "
          ++ quote e
          ++ newline
          ++ rule count peer,
    )
  ]

  unfoldable pub trans_gpb_response :
      Outcome Str (Registry D) → DialoutV3Args → Bytes → ℕ → List LogLine
  unfolding json_text_line trans_gpb_content msg_info decode_error_line
  trans_gpb_response registry r bytes count = elim (codec.decode bytes) [
    | err e ↦ decode_error_line r e count peer ∷ []
    | ok t ↦
        if is_zero t.encoding
        then json_text_line t (msg_info r t) count ∷ []
        else trans_gpb_content registry t (msg_info r t) count
  ]
