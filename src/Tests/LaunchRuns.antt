-- ===== src/Tests/LaunchRuns.antt =====
-- The start of the server of src-tauri/src/server.rs at work.
use grpc_server_rust.Prelude.{
  ℕ, ◌≡◌, refl, Bool, true, false, ◌==◌, none, some, [], ◌∷◌, Str, str, if◌then◌else◌,
}
use grpc_server_rust.Error.{AppError, ok, err, config}
use grpc_server_rust.Log.{error}
use grpc_server_rust.Models.{gpb, gnmi, udp, ServerConfig, default_config, grpc_modes, has_udp}
use grpc_server_rust.Config.{CliArgs}
use grpc_server_rust.Cli.{run_cli}
use grpc_server_rust.Cli.Program.{Surroundings, config_of, IsServed, program, run_cli-start_multi}
use grpc_server_rust.Udp.Printing.{UdpConfig}
use grpc_server_rust.ProtoFiles.{ProtoLibrary, System, State, load_all_v3}
use grpc_server_rust.Server.{
  Address, v4, v6, Task, runs, ends, port_taken, check_port_available, Files, contains,
}
use grpc_server_rust.Server.Services.{modes_line}
use grpc_server_rust.Server.Start.{Router, Environment, start_multi, start}
use grpc_server_rust.Server.Launch.{IsLaunched, AllDone, start_multi_lem}
use grpc_server_rust.Server.Refused.{start_multi_busy}

-- Nothing is compiled, and no file is there.
abbrev library : ProtoLibrary (Unit {0}) Str
library = record {
  compile = λ paths include. ok [];
  new_compiler = λ include. ok tt;
  open_files = λ include names. ok [];
  encode = λ files. [];
  new_pool = tt;
  add_file = λ p f. ok tt;
  get_message = λ p name. some name;
}

abbrev system : System Str
system = record {
  current_dir = ok (str "/srv");
  exists = λ path. true;
  create_dir_all = λ path. ok tt;
  read_dir = λ path. ok [];
  write = λ path bytes. ok tt;
}

abbrev files : Files Str
files = record {
  exe_dir = none;
  current_dir = none;
  exists = λ path. false;
  read_to_string = λ path. err (str "none");
  debug = λ paths. str "paths";
}

-- A machine whose TCP ports are free, but for one.
abbrev pub env : ℕ → Environment Str (Unit {0}) Str
env taken = record {
  bind = λ a. free a;
  system = system;
  library = library;
  files = files;
  accepts = λ t. ok tt;
}
  where
    free : Address → Bool
    free (v4 port) = if port == taken then false else true
    free (v6 port) = true

abbrev pub idle : State Str
idle = record { registry = record { message_by_name = []; v3_files = [] }; disk = []; log = [] }

abbrev several_modes : ServerConfig
several_modes = record default_config { modes = udp ∷ gnmi ∷ gpb ∷ [] }

abbrev pub served : Router Str → Task Str
served r = runs

abbrev pub listened : UdpConfig → Task (AppError Str)
listened c = ends (err (config (str "in use")))

start_multi_lem_example :
    let t = (start_multi (env 80) served listened several_modes idle).0 in
    (check_port_available (env 80).bind 50051 ≡ ok tt)
    × IsLaunched (env 80) several_modes t
    × ((start_multi (env 80) served listened several_modes idle).1 ≡ some (ok tt)
        → AllDone (env 80) served listened t)
unfolding start_multi check_port_available grpc_modes contains load_all_v3
start_multi_lem_example = start_multi_lem (env 80) served listened several_modes idle refl

abbrev only_udp : ServerConfig
only_udp = record default_config { modes = udp ∷ [] }

start_multi_busy_example :
    let (t, result) = start_multi (env 50051) served listened only_udp idle in
    (result ≡ some (err (config (port_taken 50051))))
    × (t.routers ≡ [])
    × (t.udp ≡ none)
    × (t.state.log ≡ modes_line only_udp ∷ (error, port_taken 50051) ∷ [])
start_multi_busy_example = start_multi_busy (env 50051) served listened only_udp idle refl

abbrev no_mode : ServerConfig
no_mode = record default_config { modes = [] }

-- The start fails, though the line that it logs names a mode.
refused_no_mode :
    let (t, result) = start_multi (env 80) served listened no_mode idle in
    (result ≡ some (err (config (str "No dialout modes configured"))))
    × (t.state.log ≡ modes_line default_config ∷ [])
unfolding start_multi check_port_available grpc_modes has_udp modes_line
refused_no_mode = (refl, refl)

abbrev around : Surroundings Str
around = record {
  runtime = ok tt;
  permits = record {
    current_dir = ok (str "/srv");
    create_logs = ok tt;
    create_backup = ok tt;
    can_remove = λ name. true;
    can_rename = λ name. true;
  };
  build = λ prefix. ok tt;
  try_init = err (str "set");
  log_dir = record { exists = false; has_backup = false; files = []; backups = [] };
}

abbrev args : CliArgs
args = record {
  normal = false;
  gpb = false;
  gnmi = true;
  udp = true;
  port = 50051;
  tls = false;
  generate = false;
  log = true;
  orignal = false;
  format = true;
  including_default = false;
  performance_mode = false;
  debug = str "error";
  trace = none;
  logfile_num = 50;
  logfile_size = 50;
}

still_running : (run_cli (λ e. e) (program (env 80) served listened around idle) args).code ≡ none
unfolding run_cli start start_multi check_port_available grpc_modes contains load_all_v3
still_running = refl

run_cli-start_multi_example :
    (check_port_available (env 80).bind 50051 ≡ ok tt)
    × IsServed
        (env 80)
        served
        listened
        around
        idle
        args
        (start_multi (env 80) served listened (config_of args) idle).0
run_cli-start_multi_example =
    run_cli-start_multi (env 80) served listened around idle (λ e. e) args refl
      (λ exited. cc (still_running, exited))
