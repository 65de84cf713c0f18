-- ===== src/Server.antt =====
-- src-tauri/src/server.rs: what the start of the server decides, and how it waits. `F` stands for the
-- errors of the operating system.
pub mod Router
pub mod Waiting
pub mod Tls
pub mod Services
pub mod Start
pub mod Served
pub mod Launch
pub mod Refused
use grpc_server_rust.Prelude.{
  ℕ, Bool, true, false, not, ◌&&◌, ◌||◌, ◌==◌, Option, none, some, List, [], ◌∷◌, ◌++◌, Str, str,
  fmt_nat, if◌then◌else◌,
}
use grpc_server_rust.Prelude.Paths.{join}
use grpc_server_rust.Error.{AppError, io, tls, config, grpc_transport, Outcome, ok, err, Result}
use grpc_server_rust.Models.{DialoutMode, normal, gpb, gnmi, udp}

abbrev pub same_mode : DialoutMode → DialoutMode → Bool
same_mode normal normal = true
same_mode gpb gpb = true
same_mode gnmi gnmi = true
same_mode udp udp = true
same_mode a b = false

-- `modes.contains(&m)`
unfoldable pub contains : List DialoutMode → DialoutMode → Bool
contains [] m = false
contains (a ∷ ms) m = same_mode a m || contains ms m

-- The services that are added to a router, in order; none stands for no router.
unfoldable pub router_services : List DialoutMode → List DialoutMode
unfolding contains
router_services grpc_modes =
    let has = contains grpc_modes in
    if has normal && (has gpb && has gnmi)
    then normal ∷ gpb ∷ gnmi ∷ []
    else if has normal && has gpb
    then normal ∷ gpb ∷ []
    else if has normal && has gnmi
    then normal ∷ gnmi ∷ []
    else if has gpb && has gnmi
    then gpb ∷ gnmi ∷ []
    else if has normal
    then normal ∷ []
    else if has gpb
    then gpb ∷ []
    else if has gnmi
    then gnmi ∷ []
    else []

-- What becomes of a spawned task: it runs on, ends with a result, or panics.
pub data Task (E : Type 0) : Type 0 where
  runs : Task E
  ends : Outcome E (Unit {0}) → Task E
  panics : Str → Task E

module _ {F : Type 0} where
  -- The loop over the gRPC tasks and then the UDP task, each awaited in turn; none stands for a wait
  -- without end.
  unfoldable pub wait_udp : Option (Task (AppError F)) → Option (Result F (Unit {0}))
  wait_udp none = some (ok tt)
  wait_udp (some runs) = none
  wait_udp (some (ends (ok tt))) = some (ok tt)
  wait_udp (some (ends (err e))) = some (err e)
  wait_udp (some (panics e)) = some (err (config (str "UDP task panicked: " ++ e)))

  unfoldable pub wait_all :
      List (Task F) → Option (Task (AppError F)) → Option (Result F (Unit {0}))
  unfolding wait_udp
  wait_all [] udp_handle = wait_udp udp_handle
  wait_all (runs ∷ futures) udp_handle = none
  wait_all (ends (ok tt) ∷ futures) udp_handle = wait_all futures udp_handle
  wait_all (ends (err e) ∷ futures) udp_handle = some (err (grpc_transport e))
  wait_all (panics e ∷ futures) udp_handle = some (err (config (str "gRPC task panicked: " ++ e)))

-- `TcpListener::bind` of 0.0.0.0 and of [::] at a port, and whether it works.
pub data Address : Type 0 where
  v4 v6 : ℕ → Address

-- The two error texts; the server writes them in two languages.
unfoldable pub port_taken : ℕ → Str
port_taken port =
    (0xe7 ∷ 0xab ∷ 0xaf ∷ 0xe5 ∷ 0x8f ∷ 0xa3 ∷ 0x20 ∷ [])
    ++ fmt_nat port
    ++ (0x20 ∷ 0xe5 ∷ 0xb7 ∷ 0xb2 ∷ 0xe8 ∷ 0xa2 ∷ 0xab ∷ 0xe5 ∷ 0x8d ∷ 0xa0 ∷ 0xe7 ∷ 0x94 ∷ 0xa8
        ∷ 0xef ∷ 0xbc ∷ 0x8c ∷ 0xe8 ∷ 0xaf ∷ 0xb7 ∷ 0xe6 ∷ 0x9b ∷ 0xb4 ∷ 0xe6 ∷ 0x8d ∷ 0xa2 ∷ 0xe5
        ∷ 0x85 ∷ 0xb6 ∷ 0xe4 ∷ 0xbb ∷ 0x96 ∷ 0xe7 ∷ 0xab ∷ 0xaf ∷ 0xe5 ∷ 0x8f ∷ 0xa3 ∷ 0xe5 ∷ 0x90
        ∷ 0x8e ∷ 0xe9 ∷ 0x87 ∷ 0x8d ∷ 0xe8 ∷ 0xaf ∷ 0x95 ∷ [])
    ++ str " (Port "
    ++ fmt_nat port
    ++ str " is already in use)"

unfoldable pub port_taken_v6 : ℕ → Str
port_taken_v6 port =
    (0xe7 ∷ 0xab ∷ 0xaf ∷ 0xe5 ∷ 0x8f ∷ 0xa3 ∷ 0x20 ∷ [])
    ++ fmt_nat port
    ++ (0x20 ∷ 0xe5 ∷ 0xb7 ∷ 0xb2 ∷ 0xe8 ∷ 0xa2 ∷ 0xab ∷ 0xe5 ∷ 0x8d ∷ 0xa0 ∷ 0xe7 ∷ 0x94 ∷ 0xa8
        ∷ 0x20 ∷ 0x28 ∷ 0x49 ∷ 0x50 ∷ 0x76 ∷ 0x36 ∷ 0x29 ∷ 0xef ∷ 0xbc ∷ 0x8c ∷ 0xe8 ∷ 0xaf ∷ 0xb7
        ∷ 0xe6 ∷ 0x9b ∷ 0xb4 ∷ 0xe6 ∷ 0x8d ∷ 0xa2 ∷ 0xe5 ∷ 0x85 ∷ 0xb6 ∷ 0xe4 ∷ 0xbb ∷ 0x96 ∷ 0xe7
        ∷ 0xab ∷ 0xaf ∷ 0xe5 ∷ 0x8f ∷ 0xa3 ∷ 0xe5 ∷ 0x90 ∷ 0x8e ∷ 0xe9 ∷ 0x87 ∷ 0x8d ∷ 0xe8 ∷ 0xaf
        ∷ 0x95 ∷ [])
    ++ str " (Port "
    ++ fmt_nat port
    ++ str " is already in use on IPv6)"

unfoldable pub check_port_available : (Address → Bool) → ℕ → Outcome Str (Unit {0})
unfolding port_taken port_taken_v6
check_port_available bind port =
    if not (bind (v4 port))
    then err (port_taken port)
    else if bind (v6 port)
    then ok tt
    else if not (bind (v6 0))
    then ok tt
    else err (port_taken_v6 port)

pub record TlsConfig : Type 0 where
  pub cert : Str
  pub key : Str
  pub ca : Str

-- What `load_tls_config` asks of the system: the directory of the program and the current one, where
-- they are known, the files, and `{:?}` of paths.
pub record Files (F : Type 0) : Type 0 where
  pub exe_dir : Option Str
  pub current_dir : Option Str
  pub exists : Str → Bool
  pub read_to_string : Str → Outcome F Str
  pub debug : List Str → Str

module _ {F : Type 0} (files : Files F) where
  unfoldable pub candidates : List Str
  candidates =
      elim files.exe_dir [ none ↦ str "tls" | some d ↦ join d (str "tls") ]
      ∷ elim files.current_dir [ none ↦ [] | some d ↦ join d (str "tls") ]
      ∷ str "tls"
      ∷ []

  -- `candidates.iter().find(|d| d.join(CERT_CHAIN).exists())`
  unfoldable pub find_dir : List Str → Option Str
  find_dir [] = none
  find_dir (d ∷ ds) =
      let later = find_dir ds in if files.exists (join d (str "client.crt")) then some d else later

  unfoldable pub needed : Str
  needed = str "Need: client.crt, client.key, rootCA.crt"

  unfoldable pub read : Str → Result F Str
  read path = elim (files.read_to_string path) [ ok text ↦ ok text | err e ↦ err (io e) ]

  unfoldable pub load_from : Option Str → Result F TlsConfig
  unfolding read needed candidates
  load_from none =
      err (
        tls (str "TLS files not found. Searched: " ++ files.debug candidates ++ str ". " ++ needed))
  load_from (some d) =
      let cert_path = join d (str "client.crt") in
      let key_path = join d (str "client.key") in
      let ca_path = join d (str "rootCA.crt") in
      if not (files.exists cert_path) || (not (files.exists key_path) || not (files.exists ca_path))
      then err (tls (str "TLS files do not exist in '" ++ d ++ str "'. " ++ needed))
      else elim (read cert_path) [
        | err e ↦ err e
        | ok cert ↦ elim (read key_path) [
          | err e ↦ err e
          | ok key ↦ elim (read ca_path) [
            | err e ↦ err e
            | ok ca ↦ ok (record { cert = cert; key = key; ca = ca })
          ]
        ]
      ]

  unfoldable pub load_tls_config : Result F TlsConfig
  unfolding load_from find_dir candidates
  load_tls_config = load_from (find_dir candidates)
