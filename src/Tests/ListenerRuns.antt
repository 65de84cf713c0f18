-- ===== src/Tests/ListenerRuns.antt =====
-- The two listeners of src-tauri/src/dialout/udp.rs at work.
use grpc_server_rust.Prelude.{◌+◌, ◌%◌, ◌^◌, ◌≡◌, refl, false, none, List, [], ◌∷◌, Str, str}
use grpc_server_rust.Models.Stats.{Stats}
use grpc_server_rust.Udp.Printing.{UdpConfig}
use grpc_server_rust.Udp.{Event, stopped, datagram, failed}
use grpc_server_rust.Udp.Server.{Side, ipv4, ipv6, fresh, Listeners, listener_of, run_listeners}
use grpc_server_rust.Udp.Apart.{events_of, Agrees, alone, listeners_apart}
use grpc_server_rust.Tests.Libraries.{any_json, any_codec}

abbrev settings : UdpConfig
settings = record {
  port = 50051;
  orignal = false;
  format_json = false;
  including_default = false;
  performance_mode = false;
}

abbrev show : Str → Str
show e = e

abbrev stats : Stats
stats = record { msg_count = 40; client_count = 2 }

abbrev idle : Listeners
idle = record { v4 = fresh; v6 = fresh; stats = stats }

-- The listener of IPv4 stops first; a datagram behind that is not taken.
abbrev schedule : List (Side × Event)
schedule =
    (ipv4, datagram (str "abcdefghijklmn") (str "h1"))
    ∷ (ipv6, datagram (str "short") (str "h2"))
    ∷ (ipv4, stopped)
    ∷ (ipv4, datagram (str "late") (str "h1"))
    ∷ (ipv6, failed none false (str "reset"))
    ∷ (ipv6, datagram (str "short") (str "h2"))
    ∷ []

listeners_apart_example :
    let t = run_listeners any_json any_codec show settings idle schedule in
    Agrees t.v4 (
      alone any_json any_codec show settings ipv4
        (listener_of stats fresh)
        (events_of ipv4 schedule))
    × Agrees t.v6 (
        alone any_json any_codec show settings ipv6
          (listener_of stats fresh)
          (events_of ipv6 schedule))
    × (t.stats.msg_count % 2 ^ 64 ≡ (40 + 1 + 2) % 2 ^ 64)
    × (t.stats.client_count ≡ 2)
listeners_apart_example =
    listeners_apart any_json any_codec show settings idle schedule stats refl refl
