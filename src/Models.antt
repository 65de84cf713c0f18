-- ===== src/Models.antt =====
-- src-tauri/src/models.rs: the data that the parts of the server share.
pub mod Stats
pub mod Buffer
pub mod Modes
use grpc_server_rust.Prelude.{
  ℕ, Bool, true, false, Option, none, some, List, [], ◌∷◌, ◌++◌, Str, str, str_eq, ◌||◌, not,
  retain, if◌then◌else◌,
}

pub data DialoutMode : Type 0 where
  normal gpb gnmi udp : DialoutMode

abbrev pub all_modes : List DialoutMode
all_modes = normal ∷ gpb ∷ gnmi ∷ udp ∷ []

unfoldable pub as_str : DialoutMode → Str
as_str normal = str "gRPC 2-layer dial-out"
as_str gpb = str "gRPC 3-layer dial-out"
as_str gnmi = str "gRPC gNMI dialout"
as_str udp = str "UDP 2-layer dialout"

unfoldable pub from_str_lossy : Str → Option DialoutMode
unfolding str_eq
from_str_lossy s =
    if str_eq s (str "normal") || str_eq s (str "Normal")
    then some normal
    else if str_eq s (str "gpb") || (str_eq s (str "Gpb") || str_eq s (str "GPB"))
    then some gpb
    else if str_eq s (str "gnmi") || (str_eq s (str "Gnmi") || str_eq s (str "GNMI"))
    then some gnmi
    else if str_eq s (str "udp") || (str_eq s (str "Udp") || str_eq s (str "UDP"))
    then some udp
    else none

pub record ServerConfig : Type 0 where
  pub modes : List DialoutMode
  pub port : ℕ
  pub tls : Bool
  pub orignal : Bool
  pub format_json : Bool
  pub including_default : Bool
  pub performance_mode : Bool
  pub debug : Str
  pub trace : Option Str
  pub log_output : Bool
  pub logfile_num : ℕ
  pub logfile_size : ℕ
  pub only_log_file : Bool

abbrev pub default_config : ServerConfig
default_config = record {
  modes = normal ∷ [];
  port = 50051;
  tls = false;
  orignal = false;
  format_json = true;
  including_default = true;
  performance_mode = false;
  debug = str "error";
  trace = none;
  log_output = false;
  logfile_num = 50;
  logfile_size = 50;
  only_log_file = false;
}

-- `matches!(m, Normal | Gpb | Gnmi)` and `matches!(m, Udp)`
unfoldable pub is_grpc : DialoutMode → Bool
is_grpc normal = true
is_grpc gpb = true
is_grpc gnmi = true
is_grpc udp = false

unfoldable pub is_udp : DialoutMode → Bool
is_udp udp = true
is_udp _ = false

-- `iter().any(p)`
abbrev pub any : (DialoutMode → Bool) → List DialoutMode → Bool
any p [] = false
any p (m ∷ ms) = p m || any p ms

unfoldable pub has_grpc : ServerConfig → Bool
unfolding is_grpc
has_grpc c = any is_grpc c.modes

unfoldable pub has_udp : ServerConfig → Bool
unfolding is_udp
has_udp c = any is_udp c.modes

unfoldable pub grpc_modes : ServerConfig → List DialoutMode
unfolding is_udp
grpc_modes c = retain (λ m. not (is_udp m)) c.modes

pub record UdpHeaderOption : Type 0 where
  pub option_type : ℕ
  pub length : ℕ
  pub segment_number : ℕ
  pub last : Bool

pub record UdpHeader : Type 0 where
  pub version : ℕ
  pub header_length : ℕ
  pub et : ℕ
  pub message_length : ℕ
  pub message_generator_id : ℕ
  pub message_id : ℕ
  pub option : Option UdpHeaderOption

pub record UdpHeaderMobile : Type 0 where
  pub version : ℕ
  pub standard : ℕ
  pub header_length : ℕ
  pub et : ℕ
  pub message_length : ℕ
  pub message_domain_id : ℕ
  pub message_id : ℕ
  pub option : Option UdpHeaderOption
