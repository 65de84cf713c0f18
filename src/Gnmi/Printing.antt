-- ===== src/Gnmi/Printing.antt =====
-- The texts that the gNMI service of src-tauri/src/dialout/gnmi.rs logs, its configuration, and the
-- messages as far as it reads them.
use grpc_server_rust.Prelude.{
  ℕ, ◌+◌, Bool, Option, none, some, List, [], ◌∷◌, ◌++◌, Bytes, Str, str, str_eq, fmt_nat,
  unwrap_or, if◌then◌else◌,
}
use grpc_server_rust.Prelude.Int.{ℤ, fmt_int}
use grpc_server_rust.Prelude.Utf8.{is_utf8}
use grpc_server_rust.Error.{ok, err}
use grpc_server_rust.Log.{info, error, LogLine, newline, quote}
use grpc_server_rust.Wire.{Json}

pub record GnmiConfig : Type 0 where
  pub orignal : Bool
  pub format_json : Bool
  pub including_default : Bool
  pub performance_mode : Bool

-- The oneof of a `TypedValue`, as far as the service tells its cases apart.
pub data TypedValue : Type 0 where
  json_val json_ietf_val : Bytes → TypedValue
  other_value : TypedValue

-- The oneof of a `TypedValue` may be missing, too.
pub record Update (P : Type 0) : Type 0 where
  pub path : Option P
  pub val : Option (Option TypedValue)

pub record Notification (P : Type 0) : Type 0 where
  pub timestamp : ℤ
  pub prefix : Option P
  pub update : List (Update P)

-- The generated code: the notification of a response that is an `Update`, the names of the elements
-- of a path, and `{:?}`.
pub record GnmiCodec (R P : Type 0) : Type 0 where
  pub notification : R → Option (Notification P)
  pub debug : R → Str
  pub elem_names : P → List Str
  pub debug_path : Option P → Str

-- `parts.join("/")`
unfoldable pub join_path : List Str → Str
join_path [] = []
join_path (s ∷ []) = s
join_path (s ∷ t ∷ ss) = s ++ 47 ∷ join_path (t ∷ ss)

unfoldable pub rule : ℕ → Str → Str
rule count peer =
    str "=======================gRPC gNMI server count: "
    ++ fmt_nat count
    ++ str " source addr: "
    ++ peer
    ++ str "=================="

module _ (json : Json) {R P : Type 0} (codec : GnmiCodec R P) (config : GnmiConfig)
    (peer : Str) where
  abbrev pub path_names : Option P → List Str
  path_names none = []
  path_names (some p) = codec.elem_names p

  -- The text of a value that is JSON.
  unfoldable pub json_text : Bytes → Str
  json_text json_str =
      if str_eq json_str (str "null")
      then str "json_val: " ++ quote (str "null") ++ newline
      else elim (json.from_slice json_str) [
        | ok val ↦
            str "json_val:"
            ++ newline
            ++ unwrap_or
                (if config.format_json then json.to_string_pretty val else json.to_string val)
                json_str
            ++ newline
        | err e ↦
            str "original json_val:"
            ++ newline
            ++ json_str
            ++ newline
            ++ str "json format error"
            ++ newline
      ]

  unfoldable pub bytes_text : Bytes → Str
  unfolding json_text
  bytes_text json_bytes =
      if is_utf8 json_bytes
      then json_text json_bytes
      else str "json_val is not valid UTF-8" ++ newline

  unfoldable pub value_text : Option TypedValue → Str
  unfolding bytes_text
  value_text (some (json_val bytes)) = bytes_text bytes
  value_text (some (json_ietf_val bytes)) = bytes_text bytes
  value_text v = str "no json_val field" ++ newline

  -- An update without a value has no row, but it has a number.
  unfoldable pub row_text : ℕ → Update P → Str
  unfolding value_text
  row_text row_num u = elim u.val [
    | none ↦ []
    | some val ↦
        str "row "
        ++ fmt_nat (row_num + 1)
        ++ str ":"
        ++ newline
        ++ str "path: "
        ++ codec.debug_path u.path
        ++ newline
        ++ value_text val
  ]

  unfoldable pub rows_text : ℕ → List (Update P) → Str
  unfolding row_text
  rows_text row_num [] = []
  rows_text row_num (u ∷ us) = row_text row_num u ++ rows_text (row_num + 1) us

  -- The line on a notification; `r` is the response that it came in.
  unfoldable pub notification_line : R → ℕ → Notification P → LogLine
  unfolding rows_text join_path rule
  notification_line r count n = elim n.update [
    | [] ↦ (error, str "Notification does not contain any updates: " ++ codec.debug r)
    | first ∷ others ↦ (
      info,
      str "response:"
          ++ newline
          ++ str "timestamp: "
          ++ quote (fmt_int n.timestamp)
          ++ newline
          ++ str "xpath: "
          ++ quote (join_path (path_names n.prefix ++ path_names first.path))
          ++ newline
          ++ rows_text 0 n.update
          ++ newline
          ++ rule count peer,
    )
  ]

  unfoldable pub print_gnmi_response : R → ℕ → LogLine
  unfolding notification_line
  print_gnmi_response r count = elim (codec.notification r) [
    | none ↦ (error, str "gNMI response does not contain a Notification: " ++ codec.debug r)
    | some n ↦ notification_line r count n
  ]
