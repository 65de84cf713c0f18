-- ===== src/Gui.antt =====
-- src-tauri/src/gui.rs: the commands of the window as functions on the state that they share. A
-- command is handled as a whole; a u64 product wraps; what is emitted to the window is in Emitted; `F` stands for
-- `std::fs::File`, and time is in seconds.
pub mod Modes
pub mod Commands
pub mod Window
pub mod Single
pub mod Emitted
pub mod Overlap
pub mod Program
pub mod Explorer
use grpc_server_rust.Prelude.{
  ℕ, ◌+◌, ◌-◌, ◌*◌, ◌%◌, ◌^◌, Bool, true, false, not, Option, none, some, List, [], ◌∷◌, ◌++◌, Str,
  str, if◌then◌else◌,
}
use grpc_server_rust.Error.{Outcome, ok, err}
use grpc_server_rust.Models.{DialoutMode, normal, from_str_lossy, ServerConfig}
use grpc_server_rust.Models.Stats.{
  Stats, reset_global_stats, get_global_msg_count, get_global_client_count,
}

pub record GuiConfig : Type 0 where
  pub modes : List Str
  pub port : ℕ
  pub tls : Bool
  pub orignal : Bool
  pub format_json : Bool
  pub performance_mode : Bool
  pub log_output : Bool
  pub only_log_file : Bool
  pub logfile_size : ℕ
  pub logfile_num : ℕ

-- The functions that serde asks for a field that the window leaves out.
abbrev pub default_logfile_size : ℕ
default_logfile_size = 100

abbrev pub default_logfile_num : ℕ
default_logfile_num = 50

-- One mode, and the modes before it in front of it.
abbrev pub mode_or_error : Str → Option DialoutMode → Outcome Str DialoutMode
mode_or_error s (some m) = ok m
mode_or_error s none = err (str "Unknown mode: '" ++ s ++ str "'")

abbrev pub in_front :
    Outcome Str DialoutMode → Outcome Str (List DialoutMode) → Outcome Str (List DialoutMode)
in_front (err e) rest = err e
in_front (ok m) (err e) = err e
in_front (ok m) (ok ms) = ok (m ∷ ms)

unfoldable pub collect_modes : List Str → Outcome Str (List DialoutMode)
collect_modes [] = ok []
collect_modes (s ∷ ss) = in_front (mode_or_error s (from_str_lossy s)) (collect_modes ss)

unfoldable pub dialout_modes : List Str → Outcome Str (List DialoutMode)
unfolding collect_modes
dialout_modes [] = ok (normal ∷ [])
dialout_modes (s ∷ ss) = collect_modes (s ∷ ss)

unfoldable pub to_server_config : GuiConfig → List DialoutMode → ServerConfig
to_server_config c modes = record {
  modes = modes;
  port = c.port;
  tls = c.tls;
  orignal = c.orignal;
  format_json = c.format_json;
  including_default = true;
  performance_mode = c.performance_mode;
  debug = str "error";
  trace = none;
  log_output = c.log_output;
  logfile_num = c.logfile_num;
  logfile_size = c.logfile_size;
  only_log_file = c.only_log_file;
}

-- A server thread that was started: its configuration, and whether it has finished.
pub record Thread : Type 0 where
  pub config : ServerConfig
  pub is_finished : Bool

pub record LogSettings : Type 0 where
  pub only_file : Bool
  pub max_bytes : ℕ
  pub max_num : ℕ
  pub dir : Str
  pub prefix : Str

-- `AppState` with the globals that the commands use. `has_stop_tx` tells whether there is a sender.
pub record Session (F : Type 0) : Type 0 where
  pub server_thread : Option Thread
  pub has_stop_tx : Bool
  pub start_time : Option ℕ
  pub file_writer : Option F
  pub stats : Stats
  pub settings : LogSettings

pub record StatsResponse : Type 0 where
  pub is_running : Bool
  pub message_count : ℕ
  pub client_count : ℕ
  pub uptime_secs : ℕ

-- `lock.as_ref().map(|h| !h.is_finished()).unwrap_or(false)`
abbrev pub running : Option Thread → Bool
running none = false
running (some t) = not t.is_finished

-- `AppState::default`, beside the globals as they are.
abbrev pub default_session : {F : Type 0} → Stats → LogSettings → Session F
default_session stats settings = record {
  server_thread = none;
  has_stop_tx = false;
  start_time = none;
  file_writer = none;
  stats = stats;
  settings = settings;
}

-- The globals as they are declared.
abbrev pub default_settings : LogSettings
default_settings = record {
  only_file = false;
  max_bytes = 5 * 1024 * 1024;
  max_num = 50;
  dir = [];
  prefix = [];
}

module _ {F : Type 0} where
  -- The part of `start_server` from the counters to the log file, with what `open_log_file` answers.
  unfoldable pub prepared : GuiConfig → ℕ → Outcome Str (F × Str × Str) → Session F → Session F
  unfolding reset_global_stats
  prepared c now opened s =
      let settings : LogSettings = record s.settings {
        only_file = c.only_log_file;
        max_bytes = c.logfile_size * 1024 * 1024 % 2 ^ 64;
        max_num = c.logfile_num;
      } in
      let fresh : Session F = record s {
        has_stop_tx = false;
        start_time = some now;
        file_writer = none;
        stats = reset_global_stats s.stats;
      } in
      if c.log_output
      then elim opened [
        | ok (file, dir, prefix) ↦ record fresh {
          file_writer = some file;
          settings = record settings { dir = dir; prefix = prefix };
        }
        | err e ↦ record fresh { settings = settings }
      ]
      else fresh

  -- The rest of it: the modes, and the thread.
  abbrev pub launched :
      GuiConfig → Outcome Str (List DialoutMode) → Session F → Session F × Outcome Str (Unit {0})
  launched c (err e) s = (record s { server_thread = none }, err e)
  launched c (ok modes) s = (
    record s {
      server_thread = some (record { config = to_server_config c modes; is_finished = false });
      has_stop_tx = true;
    },
    ok tt,
  )

  unfoldable pub start_server :
      GuiConfig → ℕ → Outcome Str (F × Str × Str) → Session F → Session F × Outcome Str (Unit {0})
  unfolding prepared dialout_modes to_server_config
  start_server c now opened s =
      if running s.server_thread
      then (s, err (str "Server is already running"))
      else launched c (dialout_modes c.modes) (prepared c now opened s)

  -- The stop signal, and the join of the thread.
  unfoldable pub stop_server : Session F → Session F
  stop_server s = record s {
    server_thread = none;
    has_stop_tx = false;
    start_time = none;
    file_writer = none;
  }

  unfoldable pub get_stats : ℕ → Session F → StatsResponse
  get_stats now s = record {
    is_running = running s.server_thread;
    message_count = get_global_msg_count s.stats;
    client_count = get_global_client_count s.stats;
    uptime_secs = elim s.start_time [ none ↦ 0 | some t ↦ now - t ];
  }
