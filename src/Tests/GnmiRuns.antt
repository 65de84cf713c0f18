-- ===== src/Tests/GnmiRuns.antt =====
-- src-tauri/src/dialout/gnmi.rs at work.
use grpc_server_rust.Prelude.{
  ◌+◌, ◌%◌, ◌^◌, ◌≡◌, refl, true, false, none, some, List, [], ◌∷◌, Str, str, map, replicate,
}
use grpc_server_rust.Prelude.Int.{pos}
use grpc_server_rust.Stream.{Item, message}
use grpc_server_rust.Models.Stats.{Stats}
use grpc_server_rust.Gnmi.Printing.{GnmiConfig, GnmiCodec, json_val, join_path}
use grpc_server_rust.Gnmi.{waits, publish}
use grpc_server_rust.Gnmi.Backlog.{publish_counts}
use grpc_server_rust.Tests.Libraries.{any_json}

-- A response is its text, in one update; a path is its text.
abbrev pub codec : GnmiCodec Str Str
codec = record {
  notification = λ r. some (record {
    timestamp = pos 5;
    prefix = none;
    update = record { path = some (str "a"); val = some (some (json_val r)) } ∷ [];
  });
  debug = λ r. r;
  elem_names = λ p. p ∷ [];
  debug_path = λ p. str "path";
}

abbrev pub config : GnmiConfig
config = record {
  orignal = false;
  format_json = false;
  including_default = true;
  performance_mode = false;
}

abbrev stats : Stats
stats = record { msg_count = 7; client_count = 2 }

abbrev show : Str → Str
show s = s

joined : join_path (str "interfaces" ∷ str "interface" ∷ []) ≡ str "interfaces/interface"
unfolding join_path
joined = refl

abbrev many : List (Item Str Str)
many = map message (replicate 70 (str "1"))

-- Seventy messages on one stream.
publish_counts_example :
    let done = publish any_json codec config (str "peer") show stats [] many in
    (done.0.count ≡ 65)
    × (done.0.stats.msg_count % 2 ^ 64 ≡ (7 + 65) % 2 ^ 64)
    × (done.0.stats.client_count ≡ 3)
    × (done.1 ≡ waits)
publish_counts_example = publish_counts any_json codec config (str "peer") show stats [] many
