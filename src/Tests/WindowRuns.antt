-- ===== src/Tests/WindowRuns.antt =====
-- A start from the window of src-tauri/src/gui.rs, up to the servers.
use grpc_server_rust.Prelude.{◌≡◌, refl, false, [], ◌∷◌, str, str_eq}
use grpc_server_rust.Error.{ok}
use grpc_server_rust.Models.{gnmi, udp, from_str_lossy, grpc_modes}
use grpc_server_rust.ProtoFiles.{load_all_v3}
use grpc_server_rust.Server.{check_port_available, contains}
use grpc_server_rust.Server.Start.{start_multi}
use grpc_server_rust.Gui.{GuiConfig, Thread, start_server, to_server_config, dialout_modes}
use grpc_server_rust.Gui.Program.{IsServed, start_server-start_multi}
use grpc_server_rust.Tests.LaunchRuns.{env, served, listened}
use grpc_server_rust.Tests.LaunchRuns
use grpc_server_rust.Tests.GuiRuns.{config, opened}
use grpc_server_rust.Tests.GuiRuns

abbrev sent : GuiConfig
sent = config (str "gnmi" ∷ str "UDP" ∷ [])

abbrev thread : Thread
thread = record { config = to_server_config sent (gnmi ∷ udp ∷ []); is_finished = false }

start_server-start_multi_example :
    (check_port_available (env 80).bind 50051 ≡ ok tt)
    × IsServed
        (env 80)
        served
        listened
        sent
        thread.config
        (start_multi (env 80) served listened thread.config LaunchRuns.idle).0
unfolding start_server from_str_lossy str_eq dialout_modes to_server_config start_multi
    check_port_available grpc_modes contains load_all_v3
start_server-start_multi_example =
    start_server-start_multi (env 80) served listened sent 100 opened GuiRuns.idle thread
      LaunchRuns.idle refl refl refl
