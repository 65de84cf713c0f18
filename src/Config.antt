-- ===== src/Config.antt =====
-- src-tauri/src/config.rs: what the flags of the command line become. clap, which parses them, is not
-- part of the repository.
use grpc_server_rust.Prelude.{ℕ, Bool, false, Option, List, [], ◌∷◌, ◌++◌, Str, if◌then◌else◌}
use grpc_server_rust.Models.{DialoutMode, normal, gpb, gnmi, udp, ServerConfig}

pub record CliArgs : Type 0 where
  pub normal : Bool
  pub gpb : Bool
  pub gnmi : Bool
  pub udp : Bool
  pub port : ℕ
  pub tls : Bool
  pub generate : Bool
  pub log : Bool
  pub orignal : Bool
  pub format : Bool
  pub including_default : Bool
  pub performance_mode : Bool
  pub debug : Str
  pub trace : Option Str
  pub logfile_num : ℕ
  pub logfile_size : ℕ

-- `if modes.is_empty() { vec![DialoutMode::Normal] } else { modes }`
abbrev pub or_normal : List DialoutMode → List DialoutMode
or_normal [] = normal ∷ []
or_normal (m ∷ ms) = m ∷ ms

abbrev pub pushed : Bool → DialoutMode → List DialoutMode
pushed flag mode = if flag then mode ∷ [] else []

unfoldable pub dialout_modes : CliArgs → List DialoutMode
dialout_modes args = or_normal (
    pushed args.normal normal
    ++ (pushed args.gpb gpb ++ (pushed args.gnmi gnmi ++ pushed args.udp udp)))

unfoldable pub into_server_config : CliArgs → List DialoutMode → ServerConfig
into_server_config args modes = record {
  modes = modes;
  port = args.port;
  tls = args.tls;
  orignal = args.orignal;
  format_json = args.format;
  including_default = args.including_default;
  performance_mode = args.performance_mode;
  debug = args.debug;
  trace = args.trace;
  log_output = args.log;
  logfile_num = args.logfile_num;
  logfile_size = args.logfile_size;
  only_log_file = false;
}
