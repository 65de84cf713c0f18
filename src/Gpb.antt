-- ===== src/Gpb.antt =====
-- src-tauri/src/dialout/gpb_v3.rs: the gRPC 3-layer service. One call of `dialout_v3` is a run over
-- the items of its stream.
pub mod Printing
pub mod Assembly
pub mod Counting
use grpc_server_rust.Prelude.{
  ℕ, zero, suc, ◌+◌, ◌%◌, Bool, ◌==◌, Option, none, some, List, [], ◌∷◌, ◌++◌, Bytes, Str, str,
  fmt_nat, length, unwrap_or, if◌then◌else◌, str_eq,
}
use grpc_server_rust.Prelude.Int.{ℤ, pos, as_i32, ltb_ℤ, is_zero, fmt_int}
use grpc_server_rust.Error.{Outcome, ok, err}
use grpc_server_rust.Log.{info, error, LogLine, newline, quote}
use grpc_server_rust.Wire.{Json, DialoutV3Args, Telemetry, TelemetryRow, TelemetryCodec}
use grpc_server_rust.Stream.{Item, message, fault}
use grpc_server_rust.Models.Stats.{Stats, incr, incr_msg_count, incr_client_count}
use grpc_server_rust.Registry.{Registry, find_module, supported_modules}
use grpc_server_rust.Dynamic.{JsonMaker, Reflect, dynamic_message_to_json}
use grpc_server_rust.Gpb.Printing.{V3Config, print_original_telemetry, trans_gpb_response}

-- The service. Its registry stands behind a lock, whose `read` fails with a text once it is poisoned.
pub record DialoutV3Service (D : Type 0) : Type 0 where
  pub registry : Outcome Str (Registry D)
  pub config : V3Config

abbrev pub new_dialout_v3_service : {D : Type 0} → Registry D → V3Config → DialoutV3Service D
new_dialout_v3_service registry config = record { registry = ok registry; config = config }

-- The variables of `dialout_v3`, with the global counters and what was logged.
pub record Call : Type 0 where
  pub count : ℕ
  pub chunk_data : Bytes
  pub stats : Stats
  pub log : List LogLine

unfoldable pub chunk_line : DialoutV3Args → Bytes → LogLine
chunk_line r combined = (
  info,
  str "chunk totalSize: "
      ++ fmt_int r.total_size
      ++ str " currentSize: "
      ++ fmt_nat (length combined),
)

-- The complete data, if it is, and the line that is written if not.
unfoldable pub assemble_chunk : Bytes → DialoutV3Args → Option Bytes × List LogLine
unfolding chunk_line
assemble_chunk chunk_data r =
    let combined = chunk_data ++ r.payload in
    if is_zero r.total_size
    then (some r.payload, [])
    else if ltb_ℤ (as_i32 (length combined)) r.total_size
    then (none, chunk_line r combined ∷ [])
    else (some combined, [])

unfoldable pub performance_line : ℕ → Str → LogLine
performance_line count peer =
    (info, str "gRPC 3-layer server count: " ++ fmt_nat count ++ str " source addr: " ++ peer)

module _ (json : Json) {D K : Type 0} (make : JsonMaker json K) (reflect : Reflect D K)
    (codec : TelemetryCodec) (config : V3Config) (peer : Str) where
  module _ (registry : Outcome Str (Registry D)) where
    -- What is logged of complete data.
    unfoldable pub data_lines : DialoutV3Args → Bytes → ℕ → List LogLine
    unfolding print_original_telemetry trans_gpb_response
    data_lines r real_data count =
        if config.orignal
        then print_original_telemetry codec r real_data count peer ∷ []
        else trans_gpb_response json make reflect codec config peer registry r real_data count

    unfoldable pub on_assembled : Call → DialoutV3Args → Option Bytes × List LogLine → Call
    unfolding data_lines
    on_assembled s r (none, lines) = record s {
      chunk_data = s.chunk_data ++ r.payload;
      log = s.log ++ lines;
    }
    on_assembled s r (some real_data, lines) = record s {
      chunk_data = [];
      log = s.log ++ (lines ++ data_lines r real_data s.count);
    }

    -- The body of the loop.
    unfoldable pub on_message : Call → DialoutV3Args → Call
    unfolding on_assembled assemble_chunk incr_msg_count performance_line
    on_message s r =
        let s' = record s { count = incr s.count; stats = incr_msg_count s.stats } in
        if config.performance_mode
        then (record s' {
          log = s.log ++ (if s'.count % 1000 == 0 then performance_line s'.count peer ∷ [] else []);
        })
        else on_assembled s' r (assemble_chunk s.chunk_data r)

    module _ {S : Type 0} (show : S → Str) where
      -- The `while let` loop, up to the end of the stream or a fault.
      unfoldable pub dialout_loop : Call → List (Item S DialoutV3Args) → Call × Option S
      unfolding on_message
      dialout_loop s [] = (s, none)
      dialout_loop s (message r ∷ items) = dialout_loop (on_message s r) items
      dialout_loop s (fault e ∷ items) = (
        record s {
          log = s.log ++ (error, str "Stream error from " ++ peer ++ str ": " ++ show e) ∷ [];
        },
        some e,
      )

      abbrev pub opened : Stats → List LogLine → Call
      opened stats log = record {
        count = 0;
        chunk_data = [];
        stats = incr_client_count stats;
        log = log ++ (info, str "Stream connected. (3-layer) source addr: " ++ peer) ∷ [];
      }

      -- Nothing is ever sent on the channel, so that the answer is an empty stream of responses.
      abbrev pub closed : Call × Option S → Call × Outcome S (List DialoutV3Args)
      closed (s, none) = (
        record s {
          log = s.log ++ (info, str "Stream disconnected. (3-layer) source addr: " ++ peer) ∷ [];
        },
        ok [],
      )
      closed (s, some e) = (s, err e)

      unfoldable pub dialout_v3 :
          Stats → List LogLine → List (Item S DialoutV3Args) → Call × Outcome S (List DialoutV3Args)
      unfolding dialout_loop incr_client_count
      dialout_v3 stats log items = closed (dialout_loop (opened stats log) items)
