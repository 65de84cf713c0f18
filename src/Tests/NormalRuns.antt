-- ===== src/Tests/NormalRuns.antt =====
-- src-tauri/src/dialout/normal.rs and src-tauri/src/models.rs at work.
use grpc_server_rust.Prelude.{◌≡◌, refl, arith, Bool, true, false, none, List, [], ◌∷◌, Str, str}
use grpc_server_rust.Prelude.Int.{pos}
use grpc_server_rust.Prelude.StrMap.{get}
use grpc_server_rust.Wire.{DialoutMsg}
use grpc_server_rust.Chunk.{new, entry}
use grpc_server_rust.Normal.{DialoutConfig, Call, json_lines}
use grpc_server_rust.Normal.Assembly.{feed, fragments, fragments_logged_whole}
use grpc_server_rust.Tests.Libraries.{any_json, any_codec, device}

abbrev pub settings : Bool → DialoutConfig
settings performance = record {
  orignal = false;
  format_json = false;
  including_default = true;
  performance_mode = performance;
}

abbrev pub start : Call
start = record {
  service_count = 3;
  client_count = 0;
  chunk_records = new;
  stats = record { msg_count = 5; client_count = 1 };
  log = [];
}

abbrev pub show : Str → Str
show s = s

abbrev pub peer : Str
peer = str "10.0.0.1:4000"

abbrev pub whole : DialoutMsg
whole = record {
  device_msg = device;
  sensor_path = str "p";
  json_data = str "{}";
  chunk_msg = none;
}

abbrev two : List DialoutMsg
two = fragments device (str "p") (pos 4) 2 0 (str "{" ∷ str "}" ∷ [])

fragments_logged_whole_example :
    (feed any_json any_codec (settings false) peer show start two).log
    ≡ json_lines any_json (settings false) peer 2 (str "p") (str "{}")
unfolding entry get
fragments_logged_whole_example =
    fragments_logged_whole any_json any_codec (settings false) peer show refl refl start device
      (str "p") (pos 4) 0 (str "{") (str "}") [] tt (omega arith)
