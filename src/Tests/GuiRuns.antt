-- ===== src/Tests/GuiRuns.antt =====
-- The commands of src-tauri/src/gui.rs at work.
use grpc_server_rust.Prelude.{
  ◌+◌, leb, ◌&&◌, not, arith, ◌≡◌, refl, true, false, none, List, [], ◌∷◌, Str, str, str_eq,
}
use grpc_server_rust.Error.{Outcome, ok, err}
use grpc_server_rust.Models.{from_str_lossy}
use grpc_server_rust.Gui.{
  GuiConfig, Session, running, prepared, launched, dialout_modes, start_server, stop_server,
  get_stats, default_settings,
}
use grpc_server_rust.Gui.Window.{
  Window, one_if, cleared, went, check, prepare, set_going, stop, Reach, here, next,
}
use grpc_server_rust.Gui.Single.{is_set, one_server}
use grpc_server_rust.Gui.Commands.{stats_of, start_stop}

abbrev pub config : List Str → GuiConfig
config modes = record {
  modes = modes;
  port = 50051;
  tls = false;
  orignal = false;
  format_json = true;
  performance_mode = false;
  log_output = true;
  only_log_file = false;
  logfile_size = 100;
  logfile_num = 50;
}

-- A file is its name.
abbrev pub opened : Outcome Str (Str × Str × Str)
opened = ok (str "file", str "logs", str "server")

abbrev pub idle : Session Str
idle = record {
  server_thread = none;
  has_stop_tx = false;
  start_time = none;
  file_writer = none;
  stats = record { msg_count = 9; client_count = 4 };
  settings = default_settings;
}

start_stop_example :
    let c = config (str "udp" ∷ str "gpb" ∷ []) in
    let started = start_server c 100 opened idle in
    (started.1 ≡ ok tt)
    × (get_stats 160 started.0 ≡ stats_of true 60)
    × (start_server c 120 opened started.0 ≡ (started.0, err (str "Server is already running")))
    × (get_stats 160 (stop_server started.0) ≡ stats_of false 0)
unfolding from_str_lossy str_eq
start_stop_example =
    start_stop (config (str "udp" ∷ str "gpb" ∷ [])) (config (str "udp" ∷ str "gpb" ∷ [])) 100 120
      160 opened opened idle refl refl

abbrev known_modes : GuiConfig
known_modes = config (str "udp" ∷ [])

abbrev begun : Window Str
begun = record {
  session = prepared known_modes 7 opened (cleared idle);
  pending = 0;
  ready = 1;
  stopping = 0;
  waiting = 0;
  live = 0;
  overlapped = false;
}

abbrev serving : Window Str
serving = went begun (launched known_modes (dialout_modes known_modes.modes) begun.session)

serving-Reach : Reach serving
serving-Reach =
    next
      (next (next (here idle refl) (check refl (omega arith)))
        (prepare known_modes 7 opened (omega arith)))
      (set_going known_modes (omega arith))

-- A stop waits for the server that runs, and the window already shows that none does.
abbrev draining : Window Str
draining = record serving {
  session = cleared serving.session;
  stopping = 1;
  waiting = serving.waiting + one_if (running serving.session.server_thread);
}

draining-Reach : Reach draining
draining-Reach = next serving-Reach stop

one_server_example :
    let shown = (get_stats 9 draining.session).is_running in
    (draining.live ≡ one_if shown + draining.waiting)
    × (shown && not draining.session.has_stop_tx ≡ false)
    × (leb draining.live 1 ≡ true)
    × (not (shown && not (is_set draining.session.start_time)) ≡ true)
one_server_example = one_server 9 draining-Reach

-- A start while the stop waits: two servers run.
abbrev restarted : Window Str
restarted = record draining {
  session = prepared known_modes 8 opened (cleared draining.session);
  ready = 1;
  overlapped = true;
}

abbrev doubled : Window Str
doubled = went restarted (launched known_modes (dialout_modes known_modes.modes) restarted.session)

doubled-Reach : Reach doubled
unfolding dialout_modes from_str_lossy
doubled-Reach =
    next
      (next (next draining-Reach (check refl (omega arith)))
        (prepare known_modes 8 opened (omega arith)))
      (set_going known_modes (omega arith))

two_servers : doubled.live ≡ 2
unfolding dialout_modes from_str_lossy str_eq
two_servers = refl
