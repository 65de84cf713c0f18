-- ===== src/Models/Modes.antt =====
-- The modes of a configuration, sorted into gRPC and UDP.
use grpc_server_rust.Prelude.{◌≡◌, refl, Bool, true, false, List, [], ◌∷◌, not, retain}
use grpc_server_rust.Models.{
  DialoutMode, normal, gpb, gnmi, udp, ServerConfig, is_grpc, is_udp, any, has_grpc, grpc_modes,
}

abbrev pub is_empty : List DialoutMode → Bool
is_empty [] = true
is_empty (m ∷ ms) = false

any_grpc :
    (ms : List DialoutMode) → any is_grpc ms ≡ not (is_empty (retain (λ m. not (is_udp m)) ms))
unfolding is_grpc is_udp
any_grpc [] = refl
any_grpc (normal ∷ ms) = refl
any_grpc (gpb ∷ ms) = refl
any_grpc (gnmi ∷ ms) = refl
any_grpc (udp ∷ ms) = any_grpc ms

-- A configuration has a gRPC mode exactly when the subset of gRPC modes is not empty.
pub has_grpc-grpc_modes : (c : ServerConfig) → has_grpc c ≡ not (is_empty (grpc_modes c))
unfolding has_grpc grpc_modes
has_grpc-grpc_modes c = any_grpc c.modes
