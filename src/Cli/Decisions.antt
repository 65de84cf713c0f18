-- ===== src/Cli/Decisions.antt =====
-- What `run_cli` does on every way through it.
use grpc_server_rust.Prelude.{
  ℕ, ◌≡◌, refl, arith, Bool, true, false, not, Option, none, some, ◌&&◌, List, [], ◌∷◌, Str, length,
  if◌then◌else◌, ◌+◌, length-append,
}
use grpc_server_rust.Error.{ok, err, Result}
use grpc_server_rust.Models.{ServerConfig}
use grpc_server_rust.Config.{CliArgs, dialout_modes, into_server_config}
use grpc_server_rust.Cli.{Calls, run_cli, after_generate, after_serve, logging_errors}

abbrev pub failed : {F A : Type 0} → Result F A → Bool
failed (ok a) = false
failed (err e) = true

abbrev pub flag : Bool → ℕ
flag true = 1
flag false = 0

-- Whether a run of the server has failed, and its exit code.
abbrev pub run_failed : {F : Type 0} → Option (Result F (Unit {0})) → Bool
run_failed none = false
run_failed (some o) = failed o

abbrev pub run_code : {F : Type 0} → Option (Result F (Unit {0})) → Option ℕ
run_code none = none
run_code (some o) = some (flag (failed o))

module _ {F : Type 0} (show : F → Str) (calls : Calls F) where
  after_generate_lem :
      (o : Result F (Unit {0}))
      → let exit = after_generate show calls o in
        (exit.code ≡ some (flag (failed o)))
        × (exit.served ≡ [])
        × (length exit.errors ≡ flag (failed o))
  after_generate_lem (ok done) = (refl, refl, refl)
  after_generate_lem (err e) = (refl, refl, refl)

  after_serve_lem :
      (errors : List Str) (c : ServerConfig) (o : Option (Result F (Unit {0})))
      → let exit = after_serve show calls errors c o in
        (exit.code ≡ run_code o)
        × (exit.served ≡ c ∷ [])
        × (length exit.errors ≡ length errors + flag (run_failed o))
  after_serve_lem errors c none = (refl, refl, omega arith)
  after_serve_lem errors c (some (ok done)) = (refl, refl, omega arith)
  after_serve_lem errors c (some (err e)) = (refl, refl, length-append errors _)

  logging_errors_lem :
      (o : Result F (Unit {0})) → length (logging_errors show calls o) ≡ flag (failed o)
  logging_errors_lem (ok done) = refl
  logging_errors_lem (err e) = refl

  -- The exit code is 1 exactly where the generation that was asked for fails, or, if none was, the
  -- server fails, it is 0 where they end without an error, and there is none while the server runs;
  -- the server is run exactly once, with the configuration of the flags, or, for a generation, not
  -- at all; each failure writes one line of errors, and a failure to log to a file, where that was
  -- asked for, only adds its line and does not keep the server from running.
  pub run_cli_lem :
      (args : CliArgs)
      → let modes = dialout_modes args in
        let c = into_server_config args modes in
        let exit = run_cli show calls args in
        let fails = if args.generate then failed calls.generate else run_failed (calls.serve c) in
        let unlogged =
          not args.generate && (args.log && failed (calls.init_logging modes args.port)) in
        (exit.code ≡ (
          if args.generate then some (flag (failed calls.generate)) else run_code (calls.serve c)))
        × (exit.served ≡ (if args.generate then [] else c ∷ []))
        × (length exit.errors ≡ flag unlogged + flag fails)
  unfolding run_cli
  run_cli_lem args =
      let modes = dialout_modes args in
      let c = into_server_config args modes in
      let errors =
        if args.log then logging_errors show calls (calls.init_logging modes args.port) else [] in
      ground (
        arith,
        after_generate_lem calls.generate,
        after_serve_lem errors c (calls.serve c),
        logging_errors_lem (calls.init_logging modes args.port),
      )
