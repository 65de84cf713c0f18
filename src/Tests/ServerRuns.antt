-- ===== src/Tests/ServerRuns.antt =====
-- src-tauri/src/server.rs at work.
use grpc_server_rust.Prelude.{◌≡◌, refl, none, some, [], ◌∷◌, str}
use grpc_server_rust.Error.{err, config}
use grpc_server_rust.Server.{runs, ends, wait_all}

-- IPv4 runs; IPv6 and UDP could not bind.
bind_failures_unseen :
    wait_all (runs ∷ ends (err (str "in use")) ∷ []) (some (ends (err (config (str "udp"))))) ≡ none
unfolding wait_all
bind_failures_unseen = refl
