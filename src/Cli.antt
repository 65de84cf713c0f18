-- ===== src/Cli.antt =====
-- src-tauri/src/main.rs: the command line program (`run_cli`). The parts that it calls are models of
-- their own; here they are given by what they answer.
pub mod Decisions
pub mod Program
use grpc_server_rust.Prelude.{
  ℕ, suc, ◌+◌, ◌==◌, ◌||◌, Bool, true, false, Option, none, some, List, [], ◌∷◌, ◌++◌, Str, str,
  str_eq, unwrap_or, get_elem?, if◌then◌else◌,
}
use grpc_server_rust.Error.{AppError, display, Outcome, ok, err, Result}
use grpc_server_rust.Log.{info, error, LogLine}
use grpc_server_rust.Models.{DialoutMode, ServerConfig}
use grpc_server_rust.Config.{CliArgs, dialout_modes, into_server_config}

abbrev pub next_index : Option ℕ → Option ℕ
next_index none = none
next_index (some i) = some (i + 1)

-- `std::env::args().position(|a| a == "-d" || a == "--debug")`
unfoldable pub debug_position : List Str → Option ℕ
debug_position [] = none
debug_position (a ∷ argv) =
    if str_eq a (str "-d") || str_eq a (str "--debug")
    then some 0
    else next_index (debug_position argv)

abbrev pub level_at : List Str → Option ℕ → Str
level_at argv none = str "info"
level_at argv (some pos) = unwrap_or (get_elem? argv (pos + 1)) (str "info")

unfoldable pub log_filter : List Str → Str
unfolding debug_position
log_filter argv =
    if str_eq (level_at argv (debug_position argv)) (str "debug") then str "debug" else str "info"

-- What the calls answer, in their order: `generate_descriptor_files`, `init_file_logging` and the run
-- of the server, which is none while it runs.
pub record Calls (F : Type 0) : Type 0 where
  pub generate : Result F (Unit {0})
  pub init_logging : List DialoutMode → ℕ → Result F (Unit {0})
  pub serve : ServerConfig → Option (Result F (Unit {0}))

-- What the program leaves behind: the lines on its error output, its events, the configurations of
-- the servers that it ran, and its exit code, which is none while the server runs.
pub record Exit : Type 0 where
  pub errors : List Str
  pub log : List LogLine
  pub served : List ServerConfig
  pub code : Option ℕ

module _ {F : Type 0} (show : F → Str) (calls : Calls F) where
  abbrev pub after_generate : Result F (Unit {0}) → Exit
  after_generate (ok done) = record {
    errors = [];
    log = (info, str "Generated .desc proto descriptor files successfully") ∷ [];
    served = [];
    code = some 0;
  }
  after_generate (err e) = record {
    errors = (str "ERROR: Failed to generate descriptor files: " ++ display show e) ∷ [];
    log = [];
    served = [];
    code = some 1;
  }

  abbrev pub logging_errors : Result F (Unit {0}) → List Str
  logging_errors (ok done) = []
  logging_errors (err e) = (str "ERROR: Failed to init file logging: " ++ display show e) ∷ []

  abbrev pub after_serve : List Str → ServerConfig → Option (Result F (Unit {0})) → Exit
  after_serve errors c none = record { errors = errors; log = []; served = c ∷ []; code = none }
  after_serve errors c (some (ok done)) = record {
    errors = errors;
    log = [];
    served = c ∷ [];
    code = some 0;
  }
  after_serve errors c (some (err e)) = record {
    errors = errors ++ (str "ERROR: Server failed to start: " ++ display show e) ∷ [];
    log = (error, str "Server failed to start: " ++ display show e) ∷ [];
    served = c ∷ [];
    code = some 1;
  }

  unfoldable pub run_cli : CliArgs → Exit
  unfolding dialout_modes into_server_config
  run_cli args =
      if args.generate
      then after_generate calls.generate
      else (let modes = dialout_modes args in
          let errors =
            if args.log then logging_errors (calls.init_logging modes args.port) else [] in
          let c = into_server_config args modes in after_serve errors c (calls.serve c))
