-- ===== src/Cli/Program.antt =====
-- The program of src-tauri/src/main.rs with the models of the parts that it calls: from the flags of
-- the command line to the servers that listen.
use grpc_server_rust.Prelude.{
  ◌≡◌, ◌≢◌, refl, ap, ◌∙◌, arith, Bool, true, false, not, ◌&&◌, ◌||◌, Option, none, some, List, [],
  ◌∷◌, map, All, Str, if◌then◌else◌,
}
use grpc_server_rust.Error.{AppError, Outcome, ok, err, Result}
use grpc_server_rust.Models.{normal, gpb, gnmi, is_udp, ServerConfig, has_udp, has_grpc, is_grpc}
use grpc_server_rust.Config.{CliArgs, dialout_modes, into_server_config}
use grpc_server_rust.Udp.Printing.{UdpConfig}
use grpc_server_rust.ProtoFiles.{State, generate_descriptor_files}
use grpc_server_rust.LogSetup.{LogDir, Permits, init_file_logging}
use grpc_server_rust.Server.{Task, v4, v6, contains, check_port_available}
use grpc_server_rust.Server.Served.{kind}
use grpc_server_rust.Server.Services.{udp_config_of}
use grpc_server_rust.Server.Start.{Router, Started, Environment, start_multi, start}
use grpc_server_rust.Server.Launch.{is_some, address_of, IsServing, IsLaunched, start_multi_lem}
use grpc_server_rust.Server.Launch
use grpc_server_rust.Cli.{Calls, run_cli}
use grpc_server_rust.Cli.Decisions.{flag, failed, run_code, run_cli_lem}

-- The parts of the system that the program meets besides the environment of the server: the runtime
-- that is built or not, and what the logging asks for.
pub record Surroundings (F : Type 0) : Type 0 where
  pub runtime : Outcome Str (Unit {0})
  pub permits : Permits F
  pub build : Str → Outcome Str (Unit {0})
  pub try_init : Outcome Str (Unit {0})
  pub log_dir : LogDir

-- Whether a flag of a gRPC mode is given, or no flag of a mode at all.
abbrev pub wants_grpc : CliArgs → Bool
wants_grpc args = (args.normal || (args.gpb || args.gnmi)) || not args.udp

abbrev pub config_of : CliArgs → ServerConfig
config_of args = into_server_config args (dialout_modes args)

module _ {F P D : Type 0} (env : Environment F P D) (served : Router D → Task F)
    (listened : UdpConfig → Task (AppError F)) (around : Surroundings F) (s : State D) where
  abbrev pub program : Calls F
  program = record {
    generate = (generate_descriptor_files env.library env.system s).1;
    init_logging = λ modes port.
        (init_file_logging around.permits around.build around.try_init modes port around.log_dir).1;
    serve = λ c. start around.runtime (start_multi env served listened c s).1;
  }

  -- The servers of the flags.
  abbrev pub IsServed : CliArgs → Started D → Type 0
  IsServed args t =
      (map address_of t.routers
        ≡ (if wants_grpc args then v4 args.port ∷ v6 args.port ∷ [] else []))
      × All
          (λ r.
            (contains (map kind r.services) normal
              ≡ (args.normal || not (args.gpb || (args.gnmi || args.udp))))
            × (contains (map kind r.services) gpb ≡ args.gpb)
            × (contains (map kind r.services) gnmi ≡ args.gnmi)
            × (is_some r.tls ≡ args.tls))
          t.routers
      × (t.udp ≡ (if args.udp then some (udp_config_of (config_of args)) else none))

  started_unfailed :
      (runtime : Outcome Str (Unit {0})) (o : Option (Result F (Unit {0})))
      → run_code (start runtime o) ≢ some 1
      → Launch.failed o ≡ false
  unfolding start
  started_unfailed (err e) o h = absurd (h refl)
  started_unfailed (ok built) none h = refl
  started_unfailed (ok built) (some (ok done)) h = refl
  started_unfailed (ok built) (some (err e)) h = absurd (h refl)

  flags-has_grpc : (args : CliArgs) → has_grpc (config_of args) ≡ wants_grpc args
  unfolding into_server_config dialout_modes has_grpc is_grpc
  flags-has_grpc args = ground arith

  flags-contains :
      (args : CliArgs)
      → (contains (config_of args).modes normal
          ≡ (args.normal || not (args.gpb || (args.gnmi || args.udp))))
        × (contains (config_of args).modes gpb ≡ args.gpb)
        × (contains (config_of args).modes gnmi ≡ args.gnmi)
  unfolding into_server_config dialout_modes contains
  flags-contains args = ground arith

  flags-has_udp : (args : CliArgs) → has_udp (config_of args) ≡ args.udp
  unfolding into_server_config dialout_modes has_udp is_udp
  flags-has_udp args = ground arith

  flags-IsServing :
      (args : CliArgs) (rs : List (Router D))
      → All (IsServing (config_of args)) rs
      → All
          (λ r.
            (contains (map kind r.services) normal
              ≡ (args.normal || not (args.gpb || (args.gnmi || args.udp))))
            × (contains (map kind r.services) gpb ≡ args.gpb)
            × (contains (map kind r.services) gnmi ≡ args.gnmi)
            × (is_some r.tls ≡ args.tls))
          rs
  unfolding into_server_config is_udp
  flags-IsServing args [] h = tt
  flags-IsServing args (r ∷ rs) ((has, secure), hs) =
      let (two, three, telemetry) = flags-contains args in
      (
        (
          has normal ∙ and_true _ ∙ two,
          has gpb ∙ and_true _ ∙ three,
          has gnmi ∙ and_true _ ∙ telemetry,
          secure,
        ),
        flags-IsServing args rs hs,
      )
    where
      and_true : (b : Bool) → (b && true) ≡ b
      and_true true = refl
      and_true false = refl

  -- A command line without --generate, from the flags to the servers: as long as the program has not
  -- exited with code 1, its port was free, and there are a gRPC server for IPv4 and one for IPv6 if a
  -- flag of a gRPC mode or no mode is given, each with the 2-layer service exactly for its flag or no
  -- mode at all, the 3-layer and the gNMI service exactly for their flags, and TLS exactly for its
  -- flag, and a UDP server exactly for its flag.
  pub run_cli-start_multi :
      (show : F → Str) (args : CliArgs)
      → args.generate ≡ false
      → (run_cli show program args).code ≢ some 1
      → (check_port_available env.bind args.port ≡ ok tt)
        × IsServed args (start_multi env served listened (config_of args) s).0
  unfolding into_server_config
  run_cli-start_multi show args serving unfailed =
      let c = config_of args in
      let o = (start_multi env served listened c s).1 in
      let code =
        (run_cli_lem show program args).0
        ∙ ap (λ b. if b then some (flag (failed program.generate)) else run_code (program.serve c))
            serving in
      let ok_so_far = started_unfailed around.runtime o (λ bad. unfailed (code ∙ bad)) in
      let (free, (some_mode, addresses, each, udp_server), done) =
        start_multi_lem env served listened c s ok_so_far in
      (
        free,
        (
          addresses
              ∙ ap (λ b. if b then v4 args.port ∷ v6 args.port ∷ [] else []) (flags-has_grpc args),
          flags-IsServing args _ each,
          udp_server ∙ ap (λ b. if b then some (udp_config_of c) else none) (flags-has_udp args),
        ),
      )
