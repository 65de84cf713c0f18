-- ===== src/Server/Refused.antt =====
-- The starts of the server that are refused before anything is spawned.
use grpc_server_rust.Prelude.{ℕ, ◌≡◌, refl, ap, Bool, false, none, some, [], ◌∷◌, ◌++◌, Str}
use grpc_server_rust.Error.{AppError, config, Outcome, err}
use grpc_server_rust.Log.{error}
use grpc_server_rust.Models.{ServerConfig}
use grpc_server_rust.Udp.Printing.{UdpConfig}
use grpc_server_rust.ProtoFiles.{State}
use grpc_server_rust.Server.{Task, Address, v4, port_taken, check_port_available}
use grpc_server_rust.Server.Services.{modes_line}
use grpc_server_rust.Server.Start.{Router, Environment, launch, waited, start_multi}

check_port_available-taken :
    (bind : Address → Bool) (port : ℕ)
    → bind (v4 port) ≡ false
    → check_port_available bind port ≡ err (port_taken port)
unfolding check_port_available
check_port_available-taken bind port taken = rw taken refl

module _ {F P D : Type 0} (env : Environment F P D) (served : Router D → Task F)
    (listened : UdpConfig → Task (AppError F)) where
  -- Where something listens on the TCP port of IPv4: whatever the modes are, the UDP mode alone
  -- included, the start fails with the text on the port, spawns nothing, and logs that text behind
  -- the line on the modes.
  pub start_multi_busy :
      (c : ServerConfig) (s : State D)
      → env.bind (v4 c.port) ≡ false
      → let (t, result) = start_multi env served listened c s in
        (result ≡ some (err (config (port_taken c.port))))
        × (t.routers ≡ [])
        × (t.udp ≡ none)
        × (t.state.log ≡ s.log ++ modes_line c ∷ (error, port_taken c.port) ∷ [])
  unfolding start_multi launch
  start_multi_busy c s taken =
      let refused = check_port_available-taken env.bind c.port taken in
      let run = λ (o : Outcome Str (Unit {0})). waited env served listened (launch env c s o) in
      (
        ap (λ o. (run o).1) refused,
        ap (λ o. (run o).0.routers) refused,
        ap (λ o. (run o).0.udp) refused,
        ap (λ o. (run o).0.state.log) refused,
      )
