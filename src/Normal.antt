-- ===== src/Normal.antt =====
-- src-tauri/src/dialout/normal.rs: the gRPC 2-layer service. One call of `dialout` is a run over
-- the items of its stream.
pub mod Assembly
pub mod Counting
use grpc_server_rust.Prelude.{
  ℕ, ◌+◌, ◌*◌, ◌%◌, Bool, ◌==◌, ltb, Option, none, some, List, [], ◌∷◌, ◌++◌, Bytes, Str, str,
  fmt_nat, length, unwrap_or, if◌then◌else◌,
}
use grpc_server_rust.Prelude.Utf8.{utf8_or}
use grpc_server_rust.Error.{Outcome, ok, err}
use grpc_server_rust.Log.{info, error, LogLine, newline, quote}
use grpc_server_rust.Wire.{Json, DialoutCodec, DialoutMsg}
use grpc_server_rust.Stream.{Item, message, fault}
use grpc_server_rust.Models.Stats.{Stats, incr, incr_msg_count, incr_client_count}
use grpc_server_rust.Chunk.{ChunkRecords, Delivery, new, add}

pub record DialoutConfig : Type 0 where
  pub orignal : Bool
  pub format_json : Bool
  pub including_default : Bool
  pub performance_mode : Bool

-- The service, with its atomic counter.
pub record DialoutService : Type 0 where
  pub count : ℕ
  pub config : DialoutConfig

abbrev pub new_dialout_service : DialoutConfig → DialoutService
new_dialout_service config = record { count = 0; config = config }

-- The variables of `dialout`, with the counter of the service, the global counters and what was
-- logged.
pub record Call : Type 0 where
  pub service_count : ℕ
  pub client_count : ℕ
  pub chunk_records : ChunkRecords
  pub stats : Stats
  pub log : List LogLine

-- The text at the end of the lines on a message.
unfoldable pub rule : ℕ → Str → Str
rule count peer =
    str "==================gRPC 2-layer server count: "
    ++ fmt_nat count
    ++ str " source addr: "
    ++ peer
    ++ str "=================="

unfoldable pub performance_line : ℕ → Str → LogLine
performance_line count peer =
    (info, str "gRPC 2-layer server count: " ++ fmt_nat count ++ str " source addr: " ++ peer)

unfoldable pub original_line : Str → ℕ → Str → LogLine
unfolding rule
original_line text count peer =
    (info, str "original msg:" ++ newline ++ text ++ newline ++ rule count peer)

module _ (json : Json) where
  -- `to_string_pretty` or `to_string`, and the text itself where that fails
  unfoldable pub format_value : Bool → json.Value → Str → Str
  format_value format_json val text =
      if format_json
      then unwrap_or (json.to_string_pretty val) text
      else unwrap_or (json.to_string val) text

  -- The line on an assembled message. `serde_json::from_str` reads the bytes of its text.
  unfoldable pub json_line : DialoutConfig → Str → ℕ → Str → Str → LogLine
  unfolding format_value rule
  json_line config peer count sensor_path json_str =
      let head =
        str "DialoutMsg:" ++ newline ++ str "sensorPath: " ++ quote sensor_path ++ newline in
      elim (json.from_slice json_str) [
        | ok val ↦ (
          info,
          head
              ++ str "JsonData:"
              ++ newline
              ++ format_value config.format_json val json_str
              ++ newline
              ++ rule count peer,
        )
        | err e ↦ (
          error,
          head
              ++ str "OrignalData:"
              ++ newline
              ++ json_str
              ++ newline
              ++ str "json format error with: "
              ++ quote e
              ++ newline
              ++ rule count peer,
        )
      ]

  -- All lines on an assembled message.
  unfoldable pub json_lines : DialoutConfig → Str → ℕ → Str → Bytes → List LogLine
  unfolding json_line
  json_lines config peer count sensor_path merged_json =
      (if ltb (4 * 1024 * 1024) (length merged_json)
        then (info, str "msg size: " ++ fmt_nat (length merged_json)) ∷ []
        else [])
      ++ json_line config peer count sensor_path (utf8_or merged_json (str "<invalid utf8>")) ∷ []

  -- The lines of a delivery: none while fragments are missing.
  unfoldable pub delivery_lines : DialoutConfig → Str → ℕ → Str → Delivery → List LogLine
  unfolding json_lines
  delivery_lines config peer count sensor_path none = []
  delivery_lines config peer count sensor_path (some (device, merged_json)) =
      json_lines config peer count sensor_path merged_json

  module _ (codec : DialoutCodec) (config : DialoutConfig) (peer : Str) where
    unfoldable pub add_msg : ChunkRecords → DialoutMsg → ChunkRecords × Delivery
    add_msg records msg =
        add records (codec.encode_device msg.device_msg) msg.sensor_path msg.json_data
          (elim msg.chunk_msg [ none ↦ none | some c ↦ some c.total_size ])
          (elim msg.chunk_msg [ none ↦ none | some c ↦ some c.total_fragments ])
          (elim msg.chunk_msg [ none ↦ none | some c ↦ some c.node_id ])

    -- The body of the loop.
    unfoldable pub on_message : Call → DialoutMsg → Call
    unfolding add_msg incr_msg_count
    on_message s msg =
        let count = incr s.client_count in
        let stats = incr_msg_count s.stats in
        let done = add_msg s.chunk_records msg in
        if config.performance_mode
        then (record s {
          client_count = count;
          stats = stats;
          log = s.log ++ (if count % 1000 == 0 then performance_line count peer ∷ [] else []);
        })
        else if config.orignal
        then (record s {
          service_count = incr s.service_count;
          client_count = count;
          stats = stats;
          log = s.log ++ original_line (codec.debug msg) count peer ∷ [];
        })
        else (record {
          service_count = incr s.service_count;
          client_count = count;
          chunk_records = done.0;
          stats = stats;
          log = s.log ++ delivery_lines config peer count msg.sensor_path done.1;
        })

    module _ {S : Type 0} (show : S → Str) where
      -- The `while let` loop; the answer is the empty response or the status of the fault.
      unfoldable pub dialout_loop : Call → List (Item S DialoutMsg) → Call × Outcome S Str
      unfolding on_message
      dialout_loop s [] = (s, ok [])
      dialout_loop s (message msg ∷ items) = dialout_loop (on_message s msg) items
      dialout_loop s (fault e ∷ items) = (
        record s {
          log = s.log ++ (error, str "Stream error from " ++ peer ++ str ": " ++ show e) ∷ [];
        },
        err e,
      )

      abbrev pub opened : Call → Call
      opened s = record s {
        client_count = 0;
        chunk_records = new;
        stats = incr_client_count s.stats;
        log = s.log ++ (info, str "A client connected. (2-layer) source addr: " ++ peer) ∷ [];
      }

      abbrev pub closed : Call × Outcome S Str → Call × Outcome S Str
      closed (s, ok response) = (
        record s {
          log = s.log ++ (info, str "A client disconnected. (2-layer) source addr: " ++ peer) ∷ [];
        },
        ok response,
      )
      closed (s, err e) = (s, err e)

      -- A whole call, from the service's counter, the global counters and the log before it.
      unfoldable pub dialout : Call → List (Item S DialoutMsg) → Call × Outcome S Str
      unfolding dialout_loop incr_client_count
      dialout s items = closed (dialout_loop (opened s) items)
