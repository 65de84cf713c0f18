-- ===== src/Server/Services.antt =====
-- The services that the start of src-tauri/src/server.rs makes of a configuration, and the lines that it
-- logs about them.
use grpc_server_rust.Prelude.{
  Bool, Option, List, [], ◌∷◌, ◌++◌, Str, str, fmt_nat, unwrap_or, if◌then◌else◌,
}
use grpc_server_rust.Log.{info, LogLine}
use grpc_server_rust.Models.{DialoutMode, normal, gpb, gnmi, udp, as_str, ServerConfig}
use grpc_server_rust.Normal.{DialoutService, new_dialout_service}
use grpc_server_rust.Gpb.{DialoutV3Service, new_dialout_v3_service}
use grpc_server_rust.Gnmi.{GnmiDialoutService, new_gnmi_dialout_service}
use grpc_server_rust.Udp.Printing.{UdpConfig}
use grpc_server_rust.Registry.{Registry}
use grpc_server_rust.Server.{Address, v4, v6}

-- A service of a router.
pub data Service (D : Type 0) : Type 0 where
  dialout : DialoutService → Service D
  dialout_v3 : DialoutV3Service D → Service D
  publish : GnmiDialoutService → Service D

-- `join(", ")` of the names
unfoldable pub names_text : List DialoutMode → Str
names_text [] = []
names_text (m ∷ []) = as_str m
names_text (m ∷ n ∷ ms) = as_str m ++ (str ", " ++ names_text (n ∷ ms))

abbrev pub or_normal : List DialoutMode → List DialoutMode
or_normal [] = normal ∷ []
or_normal (m ∷ ms) = m ∷ ms

unfoldable pub modes_line : ServerConfig → LogLine
unfolding names_text
modes_line c = (
  info,
  str "Server modes [" ++ names_text (or_normal c.modes) ++ str "] on port " ++ fmt_nat c.port,
)

abbrev pub address_text : Address → Str
address_text (v4 port) = str "0.0.0.0:" ++ fmt_nat port
address_text (v6 port) = str "[::]:" ++ fmt_nat port

abbrev pub label : Address → Str
label (v4 port) = str "IPv4"
label (v6 port) = str "IPv6"

unfoldable pub listen_line : Address → Bool → LogLine
listen_line a secure = (
  info,
  str "gRPC "
      ++ label a
      ++ str " server listen on: "
      ++ address_text a
      ++ (if secure then str " with TLS" else []),
)

-- The configuration of the UDP server.
abbrev pub udp_config_of : ServerConfig → UdpConfig
udp_config_of c = record {
  port = c.port;
  orignal = c.orignal;
  format_json = c.format_json;
  including_default = c.including_default;
  performance_mode = c.performance_mode;
}

abbrev pub empty_registry : {D : Type 0} → Registry D
empty_registry = record { message_by_name = []; v3_files = [] }

-- The service of a gRPC mode; UDP has none.
unfoldable pub service :
    {D : Type 0} → ServerConfig → Option (Registry D) → DialoutMode → List (Service D)
service c registry normal =
    dialout (
      new_dialout_service (record {
        orignal = c.orignal;
        format_json = c.format_json;
        including_default = c.including_default;
        performance_mode = c.performance_mode;
      }))
    ∷ []
service c registry gpb =
    dialout_v3 (
      new_dialout_v3_service (unwrap_or registry empty_registry) (record {
        orignal = c.orignal;
        format_json = c.format_json;
        including_default = c.including_default;
        performance_mode = c.performance_mode;
      }))
    ∷ []
service c registry gnmi =
    publish (
      new_gnmi_dialout_service (record {
        orignal = c.orignal;
        format_json = c.format_json;
        including_default = c.including_default;
        performance_mode = c.performance_mode;
      }))
    ∷ []
service c registry udp = []

unfoldable pub services_of :
    {D : Type 0} → ServerConfig → Option (Registry D) → List DialoutMode → List (Service D)
unfolding service
services_of c registry [] = []
services_of c registry (m ∷ ms) = service c registry m ++ services_of c registry ms
