-- ===== src/Tests/CallRuns.antt =====
-- Calls of several services of src-tauri/src/dialout at the same time.
use grpc_server_rust.Error.{ok}
use grpc_server_rust.Calls.Total.{
  Services, Connection, two_layer, three_layer, gnmi, call_of, accept_all, connections_counted,
}
use grpc_server_rust.Prelude.{
  ℕ, ◌+◌, ◌%◌, ◌^◌, ◌≡◌, refl, arith, some, List, [], ◌∷◌, Str, str, get_elem?, false, map,
}
use grpc_server_rust.Wire.{DialoutMsg}
use grpc_server_rust.Stream.{Item, message, fault}
use grpc_server_rust.Normal.{dialout, opened}
use grpc_server_rust.Calls.{Counters, Call, run_calls, turns_of, handled_by_all}
use grpc_server_rust.Calls.Loop.{accepted, finished, stream_call}
use grpc_server_rust.Calls.TwoLayer.{dialout_calls, dialout_among_calls}
use grpc_server_rust.Calls.Publish.{publish_calls}
use grpc_server_rust.Gnmi
use grpc_server_rust.Tests.Libraries.{any_json, any_codec}
use grpc_server_rust.Tests.NormalRuns.{settings, start, show, peer, whole}
use grpc_server_rust.Tests.GnmiRuns
use grpc_server_rust.Tests.GpbRuns

-- A 2-layer call whose stream breaks after one message, and a gNMI call with one message.
abbrev broken : List (Item Str DialoutMsg)
broken = message whole ∷ fault (str "reset") ∷ []

abbrev counters : Counters
counters = record { stats = start.stats; service_count = start.service_count }

abbrev calls : List Call
calls =
    accepted (dialout_calls any_json any_codec (settings false) peer show)
      (opened any_json any_codec (settings false) peer show start) broken
    ∷ accepted (publish_calls any_json GnmiRuns.codec GnmiRuns.config peer show)
        (Gnmi.opened any_json GnmiRuns.codec GnmiRuns.config peer show start.stats [], 0)
        (message (str "1") ∷ [])
    ∷ []

abbrev schedule : List ℕ
schedule = 1 ∷ 0 ∷ 1 ∷ 0 ∷ 0 ∷ []

both_handled : handled_by_all counters (turns_of schedule) calls ≡ 2
unfolding handled_by_all
both_handled = refl

dialout_among_calls_example :
    let loops = dialout_calls any_json any_codec (settings false) peer show in
    let done = dialout any_json any_codec (settings false) peer show start broken in
    (rest : List (Item Str DialoutMsg)) × (get_elem? (run_calls calls counters schedule).0 0
      ≡ some (stream_call loops (finished loops done rest)))
dialout_among_calls_example =
    dialout_among_calls any_json any_codec (settings false) peer show calls counters schedule 0
      start broken refl (omega arith)

-- The three services, and a connection of each.
abbrev services : Services Str Str Str Str
services = record {
  json = any_json;
  dialout_codec = any_codec;
  dialout_config = settings false;
  make = GpbRuns.make;
  reflect = GpbRuns.reflect;
  telemetry_codec = GpbRuns.codec;
  v3_config = GpbRuns.config;
  registry = ok GpbRuns.reg;
  gnmi_codec = GnmiRuns.codec;
  gnmi_config = GnmiRuns.config;
}

abbrev connections : List (Connection Str Str)
connections =
    two_layer peer broken
    ∷ three_layer peer
        (message (GpbRuns.args 0 (str "a")) ∷ message (GpbRuns.args 0 (str "b")) ∷ [])
    ∷ gnmi peer (message (str "1") ∷ [])
    ∷ []

abbrev turns : List ℕ
turns = 2 ∷ 1 ∷ 0 ∷ 1 ∷ 0 ∷ 0 ∷ 2 ∷ 1 ∷ []

connections_counted_example :
    let calls = map (call_of services show counters) connections in
    let stats = (run_calls calls (accept_all services show counters connections) turns).1.stats in
    (stats.client_count % 2 ^ 64 ≡ (1 + 3) % 2 ^ 64) × (stats.msg_count % 2 ^ 64 ≡ (5 + 4) % 2 ^ 64)
connections_counted_example =
    connections_counted services show counters connections turns
      (omega arith, (omega arith, (omega arith, tt)))
