-- ===== src/Tests/StartRuns.antt =====
-- src-tauri/src/main.rs and src-tauri/src/logging_setup.rs at work.
use grpc_server_rust.Prelude.{
  ◌≡◌, refl, true, false, not, none, some, [], ◌∷◌, Str, str, str_eq, length,
}
use grpc_server_rust.Prelude.StrMap.{get}
use grpc_server_rust.Error.{config, ok, err}
use grpc_server_rust.Config.{CliArgs, into_server_config, dialout_modes}
use grpc_server_rust.LogSetup.{LogDir, Permits, rotate_old_logs}
use grpc_server_rust.LogSetup.Backup.{rotate_old_logs_lem}
use grpc_server_rust.Cli.{Calls, run_cli, log_filter}
use grpc_server_rust.Cli.Decisions.{run_cli_lem}

-- The old backup cannot be removed.
abbrev permits : Permits Str
permits = record {
  current_dir = ok (str "/srv");
  create_logs = ok tt;
  create_backup = ok tt;
  can_remove = λ name. not (str_eq name (str "old.log"));
  can_rename = λ name. true;
}

abbrev dir : LogDir
dir = record {
  exists = true;
  has_backup = false;
  files = (str "new.log", str "2") ∷ (str "a.log", str "3") ∷ [];
  backups = (str "old.log", str "1") ∷ (str "older.log", str "0") ∷ [];
}

rotate_old_logs_lem_example :
    (get (rotate_old_logs permits dir).0.files (str "a.log") ≡ none)
    × (get (rotate_old_logs permits dir).0.backups (str "a.log") ≡ some (str "3"))
unfolding get str_eq
rotate_old_logs_lem_example = rotate_old_logs_lem permits dir (str "a.log") (refl, (refl, tt)) refl

abbrev args : CliArgs
args = record {
  normal = false;
  gpb = false;
  gnmi = false;
  udp = true;
  port = 50051;
  tls = false;
  generate = false;
  log = true;
  orignal = false;
  format = true;
  including_default = false;
  performance_mode = false;
  debug = str "error";
  trace = none;
  logfile_num = 50;
  logfile_size = 50;
}

-- The log file cannot be set up, and the server runs to its end.
abbrev calls : Calls Str
calls = record {
  generate = ok tt;
  init_logging = λ modes port. err (config (str "set"));
  serve = λ c. some (ok tt);
}

run_cli_lem_example :
    ((run_cli (λ e. e) calls args).code ≡ some 0)
    × ((run_cli (λ e. e) calls args).served ≡ into_server_config args (dialout_modes args) ∷ [])
    × (length (run_cli (λ e. e) calls args).errors ≡ 1)
run_cli_lem_example = run_cli_lem (λ e. e) calls args

-- `-d error` leaves the level at info.
log_filter_error : log_filter (str "-u" ∷ str "-d" ∷ str "error" ∷ []) ≡ str "info"
unfolding log_filter str_eq
log_filter_error = refl
