-- ===== src/Server/Waiting.antt =====
-- What the server's wait for its tasks comes to.
use grpc_server_rust.Prelude.{◌≡◌, refl, arith, Option, none, some, List, [], ◌∷◌, All}
use grpc_server_rust.Error.{AppError, ok, err}
use grpc_server_rust.Server.{Task, runs, ends, panics, wait_all, wait_udp}

-- The task has ended without an error.
abbrev pub IsDone : {E : Type 0} → Task E → Type 0
IsDone t = t ≡ ends (ok tt)

abbrev pub IsDoneUdp : {E : Type 0} → Option (Task E) → Type 0
IsDoneUdp none = Unit {0}
IsDoneUdp (some t) = IsDone t

module _ {F : Type 0} where
  wait_udp_ok : (u : Option (Task (AppError F))) → wait_udp u ≡ some (ok tt) → IsDoneUdp u
  unfolding wait_udp
  wait_udp_ok none h = tt
  wait_udp_ok (some runs) h = absurd (ground arith)
  wait_udp_ok (some (ends (ok tt))) h = refl
  wait_udp_ok (some (ends (err e))) h = absurd (ground arith)
  wait_udp_ok (some (panics e)) h = absurd (ground arith)

  -- The server ends without an error only if every task has.
  pub wait_all_ok :
      (futures : List (Task F)) (udp_handle : Option (Task (AppError F)))
      → wait_all futures udp_handle ≡ some (ok tt)
      → All IsDone futures × IsDoneUdp udp_handle
  unfolding wait_all
  wait_all_ok [] u h = (tt, wait_udp_ok u h)
  wait_all_ok (runs ∷ ts) u h = absurd (ground arith)
  wait_all_ok (ends (ok tt) ∷ ts) u h = let (a, b) = wait_all_ok ts u h in ((refl, a), b)
  wait_all_ok (ends (err e) ∷ ts) u h = absurd (ground arith)
  wait_all_ok (panics e ∷ ts) u h = absurd (ground arith)
