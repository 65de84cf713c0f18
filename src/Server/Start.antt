-- ===== src/Server/Start.antt =====
-- The start of the server of src-tauri/src/server.rs as a whole (`start_multi`, `start`,
-- `start_with_stop`): what is checked, loaded and spawned, in which order, and the wait. The frame
-- size of the builder and the line that `load_tls_config` logs are left out.
use grpc_server_rust.Prelude.{
  Bool, true, false, not, ◌&&◌, Option, none, some, List, [], ◌∷◌, ◌++◌, map, Str, str,
  if◌then◌else◌,
}
use grpc_server_rust.Prelude.Paths.{join}
use grpc_server_rust.Error.{AppError, io, config, grpc_transport, Outcome, ok, err, Result}
use grpc_server_rust.Log.{info, error, LogLine}
use grpc_server_rust.Models.{gpb, ServerConfig, has_udp, grpc_modes}
use grpc_server_rust.Models.Modes.{is_empty}
use grpc_server_rust.Udp.Printing.{UdpConfig}
use grpc_server_rust.Registry.{Registry}
use grpc_server_rust.ProtoFiles.{ProtoLibrary, System, State, load_all_v3}
use grpc_server_rust.Server.Services.{
  Service, modes_line, listen_line, udp_config_of, empty_registry, services_of,
}
use grpc_server_rust.Server.{
  contains, router_services, Task, wait_all, Address, v4, v6, check_port_available, TlsConfig,
  Files, load_tls_config,
}

-- A gRPC server that is spawned.
pub record Router (D : Type 0) : Type 0 where
  pub address : Address
  pub tls : Option TlsConfig
  pub services : List (Service D)

-- What the start leaves behind: the files and the log, and the tasks that it spawned.
pub record Started (D : Type 0) : Type 0 where
  pub state : State D
  pub routers : List (Router D)
  pub udp : Option UdpConfig

-- The system and the libraries: the TCP ports, the files, protox and prost-reflect, the TLS files,
-- and whether tonic takes a TLS configuration.
pub record Environment (F P D : Type 0) : Type 0 where
  pub bind : Address → Bool
  pub system : System F
  pub library : ProtoLibrary P D
  pub files : Files F
  pub accepts : TlsConfig → Outcome F (Unit {0})

module _ {F P D : Type 0} (env : Environment F P D) where
  -- The registry, where the 3-layer service is configured.
  abbrev pub loaded : State D × Result F (Unit {0}) → State D × Result F (Option (Registry D))
  loaded (s, err e) = (s, err e)
  loaded (s, ok done) = (s, ok (some s.registry))

  abbrev pub autogen_made :
      Str → Str → State D → Outcome F (Unit {0}) → State D × Result F (Option (Registry D))
  autogen_made proto_dir autogen_dir s (err e) = (s, err (io e))
  autogen_made proto_dir autogen_dir s (ok done) =
      loaded (load_all_v3 env.library env.system proto_dir autogen_dir s)

  abbrev pub load_in : State D → Outcome F Str → State D × Result F (Option (Registry D))
  load_in s (err e) = (s, err (io e))
  load_in s (ok dir) =
      let proto_dir = join dir (str "proto") in
      let autogen_dir = join dir (str "autogen") in
      if env.system.exists autogen_dir
      then autogen_made proto_dir autogen_dir s (ok tt)
      else if not (env.system.exists proto_dir)
      then (s, err (config (str "Proto directory '" ++ proto_dir ++ str "' does not exist")))
      else autogen_made proto_dir autogen_dir s (env.system.create_dir_all autogen_dir)

  abbrev pub load_registry : Bool → State D → State D × Result F (Option (Registry D))
  load_registry false s = (s, ok none)
  load_registry true s = load_in (record s { registry = empty_registry }) env.system.current_dir

  -- The TLS configuration of one server.
  abbrev pub accepted : TlsConfig → Outcome F (Unit {0}) → Result F (Option TlsConfig)
  accepted t (ok done) = ok (some t)
  accepted t (err e) = err (grpc_transport e)

  abbrev pub checked_tls : Result F TlsConfig → Result F (Option TlsConfig)
  checked_tls (err e) = err e
  checked_tls (ok t) = accepted t (env.accepts t)

  abbrev pub tls_of : Bool → Result F (Option TlsConfig)
  tls_of false = ok none
  tls_of true = checked_tls (load_tls_config env.files)

  -- The spawning of the gRPC server of an address, and of those behind it, with its TLS configuration.
  abbrev pub spawned :
      ServerConfig
      → Option (Registry D)
      → Address
      → Started D
      → Result F (Option TlsConfig)
      → Started D × Result F (Unit {0})
  spawned c registry a t (err e) = (t, err e)
  spawned c registry a t (ok tls) = (
    record t {
      state = record t.state { log = t.state.log ++ listen_line a c.tls ∷ [] };
      routers =
          t.routers
          ++ record {
            address = a;
            tls = tls;
            services = services_of c registry (router_services (grpc_modes c));
          }
            ∷ [];
    },
    ok tt,
  )

  abbrev pub then_spawn :
      (Started D → Started D × Result F (Unit {0}))
      → Started D × Result F (Unit {0})
      → Started D × Result F (Unit {0})
  then_spawn f (t, err e) = (t, err e)
  then_spawn f (t, ok done) = f t

  unfoldable pub spawn_routers :
      ServerConfig
      → Option (Registry D)
      → List Address
      → Started D
      → Started D × Result F (Unit {0})
  unfolding listen_line services_of
  spawn_routers c registry [] t = (t, ok tt)
  spawn_routers c registry (a ∷ addresses) t =
      then_spawn (spawn_routers c registry addresses) (spawned c registry a t (tls_of c.tls))

  unfoldable pub routers_of :
      ServerConfig → State D × Result F (Option (Registry D)) → Started D × Result F (Unit {0})
  unfolding spawn_routers
  routers_of c (s, err e) = (record { state = s; routers = []; udp = none }, err e)
  routers_of c (s, ok registry) =
      spawn_routers c registry (if is_empty (grpc_modes c) then [] else v4 c.port ∷ v6 c.port ∷ [])
        (record { state = s; routers = []; udp = none })

  -- The UDP server, behind the gRPC servers.
  abbrev pub with_udp :
      ServerConfig → Started D × Result F (Unit {0}) → Started D × Result F (Unit {0})
  with_udp c (t, err e) = (t, err e)
  with_udp c (t, ok done) =
      (record t { udp = if has_udp c then some (udp_config_of c) else none }, ok tt)

  -- What follows the test whether there is nothing to serve.
  abbrev pub configured : ServerConfig → State D → Bool → Started D × Result F (Unit {0})
  configured c s true = (
    record { state = s; routers = []; udp = none },
    err (config (str "No dialout modes configured")),
  )
  configured c s false = with_udp c (routers_of c (load_registry (contains (grpc_modes c) gpb) s))

  -- Everything in front of the wait, from what the test of the port says.
  unfoldable pub launch :
      ServerConfig → State D → Outcome Str (Unit {0}) → Started D × Result F (Unit {0})
  unfolding modes_line routers_of
  launch c s (err e) = (
    record {
      state = record s { log = s.log ++ modes_line c ∷ (error, e) ∷ [] };
      routers = [];
      udp = none;
    },
    err (config e),
  )
  launch c s (ok done) =
      configured c (record s { log = s.log ++ modes_line c ∷ [] })
        (is_empty (grpc_modes c) && not (has_udp c))

  -- What becomes of the tasks that are spawned.
  module _ (served : Router D → Task F) (listened : UdpConfig → Task (AppError F)) where
    abbrev pub awaited : Option UdpConfig → Option (Task (AppError F))
    awaited none = none
    awaited (some c) = some (listened c)

    abbrev pub waited : Started D × Result F (Unit {0}) → Started D × Option (Result F (Unit {0}))
    waited (t, err e) = (t, some (err e))
    waited (t, ok done) = (t, wait_all (map served t.routers) (awaited t.udp))

    -- The result of none is a wait without end.
    unfoldable pub start_multi : ServerConfig → State D → Started D × Option (Result F (Unit {0}))
    unfolding launch wait_all
    start_multi c s = waited (launch c s (check_port_available env.bind c.port))

-- The runtime of `start` and of `start_with_stop`, which is built or not; with a signal to stop that
-- the second one takes before the server has ended.
unfoldable pub start :
    {F : Type 0}
    → Outcome Str (Unit {0})
    → Option (Result F (Unit {0}))
    → Option (Result F (Unit {0}))
start (err e) result = some (err (config (str "Failed to create tokio runtime: " ++ e)))
start (ok built) result = result

unfoldable pub start_with_stop :
    {F : Type 0}
    → Outcome Str (Unit {0})
    → Bool
    → Option (Result F (Unit {0}))
    → List LogLine × Option (Result F (Unit {0}))
start_with_stop (err e) stopped result =
    ([], some (err (config (str "Failed to create tokio runtime: " ++ e))))
start_with_stop (ok built) true result = ((info, str "Server stopped by user") ∷ [], some (ok tt))
start_with_stop (ok built) false result = ([], result)
