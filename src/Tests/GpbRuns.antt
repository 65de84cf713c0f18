-- ===== src/Tests/GpbRuns.antt =====
-- src-tauri/src/dialout/gpb_v3.rs and src-tauri/src/proto_dynamic.rs at work.
use grpc_server_rust.Prelude.{
  ℕ, ◌≡◌, refl, arith, true, false, none, List, [], ◌∷◌, ◌++◌, Bytes, Str, str, if◌then◌else◌,
  str_eq,
}
use mathlib.Core.Option
use grpc_server_rust.Prelude.Int.{pos}
use grpc_server_rust.Prelude.StrMap.{StrMap, get, insert}
use grpc_server_rust.Error.{ok}
use grpc_server_rust.Wire.{DialoutV3Args, Telemetry, TelemetryCodec}
use grpc_server_rust.Models.Stats.{Stats}
use grpc_server_rust.Registry.{Registry}
use grpc_server_rust.Dynamic.{
  FieldDescriptor, i32, string, map, DynMessage, no_field, field, no_entry, entry, JsonMaker,
  Reflect, dynamic_message_to_json,
}
use grpc_server_rust.Dynamic.Fields.{last_present, json_of, dynamic_message_to_json_lem}
use grpc_server_rust.Gpb.Printing.{V3Config}
use grpc_server_rust.Gpb.{Call}
use grpc_server_rust.Gpb.Assembly.{feed, progress, lines_of, chunks_joined, unchunked_drops_held}
use grpc_server_rust.Tests.Libraries.{any_json}

-- JSON as text, with a mark for each kind of value.
abbrev texts : List Str → Str
texts [] = []
texts (s ∷ ss) = s ++ texts ss

abbrev members : StrMap Str → Str
members [] = []
members ((k, v) ∷ m) = k ++ str ":" ++ v ++ members m

abbrev pub make : JsonMaker any_json Str
make = record {
  bool = λ b. if b then str "true" else str "false";
  integer = λ n. str "i";
  unsigned = λ n. str "u";
  float32 = λ n. str "f";
  float64 = λ n. str "d";
  string = λ s. s;
  array = λ vs. str "[" ++ texts vs ++ str "]";
  object = λ m. str "{" ++ members m ++ str "}";
  debug_key = λ k. k;
}

abbrev plain : Str → FieldDescriptor
plain name = record { name = name; is_list = false; is_map = false }

abbrev labels : FieldDescriptor
labels = record { name = str "labels"; is_list = false; is_map = true }

-- A name, a map with an entry, and a field that is absent.
abbrev sample : DynMessage Str
sample = field (plain (str "name")) true (string (str "a")) (
    field labels true (map (entry (str "k") (string (str "v")) no_entry))
      (field (plain (str "speed")) false (i32 (pos 0)) no_field))

sample_json : dynamic_message_to_json any_json make sample ≡ ok (str "{name:alabels:{}}")
unfolding dynamic_message_to_json insert str_eq
sample_json = refl

dynamic_message_to_json_lem_example :
    (obj : StrMap Str) × (dynamic_message_to_json any_json make sample
      ≡ ok (str "{" ++ members obj ++ str "}"))
    × ((k : Str)
        → get obj k ≡ Option.map (λ f. json_of any_json make f.0 f.1) (last_present sample k))
dynamic_message_to_json_lem_example = dynamic_message_to_json_lem any_json make sample

-- A descriptor is the name of its message.
abbrev pub reg : Registry Str
reg = record {
  message_by_name = (str "dev_m", str "devm_v3.dev_m") ∷ [];
  v3_files = str "devm_v3.proto" ∷ [];
}

abbrev telemetry : Bytes → Telemetry
telemetry b = record {
  producer_name = str "maker";
  node_id_str = str "switch";
  product_name = str "model";
  subscription_id_str = str "1";
  sensor_path = str "dev-m/cpu";
  collection_id = 1;
  collection_start_time = 2;
  msg_timestamp = 3;
  collection_end_time = 4;
  current_period = 5;
  except_desc = [];
  encoding = pos 0;
  data_str = b;
  data_gpb = none;
}

abbrev pub codec : TelemetryCodec
codec = record {
  decode = λ b. ok (telemetry b);
  debug = λ t. t.data_str;
  debug_row = λ r. r.content;
}

abbrev pub reflect : Reflect Str Str
reflect = record { decode = λ d b. ok sample; show = λ m. str "message" }

abbrev pub config : V3Config
config = record {
  orignal = false;
  format_json = false;
  including_default = true;
  performance_mode = false;
}

abbrev stats : Stats
stats = record { msg_count = 7; client_count = 2 }

abbrev start : Call
start = record { count = 0; chunk_data = []; stats = stats; log = [] }

abbrev peer : Str
peer = str "10.0.0.1:4000"

abbrev show : Str → Str
show s = s

abbrev pub args : ℕ → Str → DialoutV3Args
args size payload = record { req_id = pos 1; payload = payload; errors = []; total_size = pos size }

-- The text {"a":1} in three chunks.
abbrev parts : List DialoutV3Args
parts = args 7 (str "{\"a") ∷ args 7 (str "\":") ∷ []

chunks_joined_example :
    let s =
      feed any_json make reflect codec config peer
        (ok reg)
        show
        start
        (parts ++ args 7 (str "1}") ∷ []) in
    (s.chunk_data ≡ [])
    × (s.log
        ≡ progress [] parts
          ++ lines_of any_json make reflect codec config peer
              (ok reg)
              show
              (args 7 (str "1}"))
              (str "{\"a\":1}")
              3)
chunks_joined_example =
    chunks_joined any_json make reflect codec config peer (ok reg) show refl 7 start parts
      (args 7 (str "1}")) (refl, (refl, tt)) refl (omega arith) (omega arith) (omega arith)

unchunked_drops_held_example :
    let s =
      feed any_json make reflect codec config peer
        (ok reg)
        show
        start
        (parts ++ args 0 (str "{}") ∷ []) in
    (s.chunk_data ≡ [])
    × (s.log
        ≡ progress [] parts
          ++ lines_of any_json make reflect codec config peer
              (ok reg)
              show
              (args 0 (str "{}"))
              (str "{}")
              3)
unchunked_drops_held_example =
    unchunked_drops_held any_json make reflect codec config peer (ok reg) show refl 7 start parts
      (args 0 (str "{}")) (refl, (refl, tt)) refl (omega arith) (omega arith)
