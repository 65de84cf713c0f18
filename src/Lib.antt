-- ===== src/Lib.antt =====
-- The telemetry collector grpc_server_rust (src-tauri): devices dial out to it by gRPC streams or by
-- UDP datagrams, and it assembles fragments, decodes the messages and writes them to its log.
--
-- Parts of the program and the files that model them:
--   Chunk      src-tauri/src/chunk.rs: records of fragments by sensor path (`ChunkRecords::add` is `add`)
--   UdpHeader  src-tauri/src/udp_header.rs: the two header parsers and the slices of a datagram; in
--              UdpHeader/UnitTests the unit tests of the file
--   Udp        src-tauri/src/dialout/udp.rs: one listener (`run_udp_listener`) and one datagram
--              (`process_udp_packet`); in Udp/Server the two listeners of `UdpDialoutServer::start`,
--              in Udp/Signal `new`, `stop` and what the listeners see of a stop
--   Normal     src-tauri/src/dialout/normal.rs: one call of the gRPC 2-layer service (`dialout`)
--   Gpb        src-tauri/src/dialout/gpb_v3.rs: one call of the gRPC 3-layer service (`dialout_v3`)
--   Dynamic    the end of the same file: the JSON of a message that is decoded at run time
--   Registry   src-tauri/src/proto_dynamic.rs: the index of message descriptors and `find_module`
--   ProtoFiles the same file: `load_all_v3` and `generate_descriptor_files`
--   Gnmi       src-tauri/src/dialout/gnmi.rs: one call of the gNMI service (`publish`)
--   Calls      calls of the three services at the same time, which share the global counters: the
--              interface of a service (`CallService`), the loop over a stream (`CallLoop`), and one
--              module for each service that fills them
--   Config     src-tauri/src/config.rs: what the flags of the command line become
--   Gui        src-tauri/src/gui.rs: the commands of the window (`start_server`, `stop_server`,
--              `get_stats`) on the state that they share, in Gui/Window in any order, in
--              Gui/Overlap lock by lock, in Gui/Program with the server that a start runs, in
--              Gui/Explorer `open_current_dir`, and in Gui/Emitted what the window is told
--   LogFiles   the same file: `cleanup_old_logs`
--   LogBridge  the same file: the channel of log events with its counter (`on_event`, the loop of
--              `run`) as a step relation and, in LogBridge/Events, one operation after the other; a
--              poll of it, which writes and rotates the log file; and in LogBridge/Visitor the text of
--              an event from its fields
--   LogSetup   src-tauri/src/logging_setup.rs: `init_file_logging` and `rotate_old_logs`, and
--              `open_log_file` of gui.rs
--   Cli        src-tauri/src/main.rs: `run_cli`; in Cli/Program with the models of what it calls
--   Server     src-tauri/src/server.rs: the choice of services, the wait for the tasks,
--              `check_port_available` and `load_tls_config`; in Server/Start the whole of
--              `start_multi`, `start` and `start_with_stop`
--   Models     src-tauri/src/models.rs: modes, configuration, header structs, the global counters
--   Error      src-tauri/src/error.rs: the error type, its texts, and results
--   Log        the events that the code gives to `tracing`, as levels and texts
--   Wire       the libraries that are not in the repository (serde_json, the code that prost generates)
--   Stream     what a client's stream gives: messages, and a fault
--   Prelude    tests, lists, bytes and text, maps, signed numbers, bit masks, UTF-8
--   Tests      runs of the definitions and the theorems at concrete inputs
--
-- How they interact: `Normal` calls `Chunk.add` for each message of its stream and logs what is
-- delivered; `Gpb` keeps one buffer for each call, asks `Registry.find_module` for the descriptor of
-- a sensor path and writes rows by `Dynamic.dynamic_message_to_json`; `Udp` calls
-- `UdpHeader.parse_udp_header` and keeps one buffer for each listener; all of them, and `Gnmi`, count
-- in `Models.Stats`, which `Gui.start_server` resets. `ProtoFiles.load_all_v3` fills the registry by
-- `Registry.index_files`. `Config` and `Gui` make the `ServerConfig` that `Server` reads;
-- `Server.Start.start_multi` loads the registry by `ProtoFiles.load_all_v3` and spawns the services of
-- `Normal`, `Gpb`, `Gnmi` and `Udp`. `LogBridge.poll` calls `LogFiles.cleanup_old_logs` when a file is
-- full. A shared atomic is a field of the state that a handler passes on; the threads of the window run
-- `Server.Start.start_multi` on the configuration that `Gui.start_server` makes.
--
-- Conventions: a `String`, `&str`, `Bytes` or `&[u8]` is the list of its bytes; u64 counters wrap at
-- 2 ^ 64 as in the release profile (a debug build panics there); `usize` has 64 bits. An `async`
-- function is a run over the events that it awaits, in their order. What a handler logs is the list of
-- its lines. Code of other libraries is a parameter of the definitions that call it. Decimal text is
-- printed with fuel 20, the most digits that a u64 has (`Prelude.Text.fmt_nat`). Log lines of
-- `open_log_file`, `load_tls_config` and `init_file_logging` are left out.
--
-- Where threads share state, the model is a step relation or a run over a schedule: the log channel
-- and its counter (LogBridge), the two UDP listeners (Udp/Server), the calls at one address (Calls, a
-- turn for each item of a stream), and the commands of the window: in Gui/Window a start and a stop are
-- three steps each and no second start comes between those of a start, in Gui/Overlap each lock is a
-- step and starts overlap.
--
-- Not modelled: sockets and threads themselves, the runtime of tokio, the parser of the command line,
-- and the set-up of tauri (`run` of gui.rs but for its loop), which are calls of other libraries.
pub mod Prelude
pub mod Error
pub mod Log
pub mod Wire
pub mod Stream
pub mod Models
pub mod Chunk
pub mod UdpHeader
pub mod Udp
pub mod Normal
pub mod Dynamic
pub mod Registry
pub mod ProtoFiles
pub mod Gpb
pub mod Gnmi
pub mod Calls
pub mod Config
pub mod Gui
pub mod Server
pub mod LogFiles
pub mod LogBridge
pub mod LogSetup
pub mod Cli
mod Tests
