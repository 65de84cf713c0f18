-- ===== src/Server/Launch.antt =====
-- What a start of the server comes to.
use grpc_server_rust.Prelude.{
  ◌≡◌, refl, sym, ap, ◌∙◌, arith, Bool, true, false, not, ◌&&◌, Option, none, some, List, [], ◌∷◌,
  ◌++◌, map, All, All-append, append_assoc, append-nil, Str, if◌then◌else◌, ◌||◌,
}
use mathlib.Core.Path.{subst}
use mathlib.Core.List.{map-append}
use grpc_server_rust.Error.{AppError, Outcome, ok, err, Result}
use grpc_server_rust.Models.{DialoutMode, gpb, is_udp, ServerConfig, has_grpc, has_udp, grpc_modes}
use grpc_server_rust.Models.Modes.{is_empty, has_grpc-grpc_modes}
use grpc_server_rust.Udp.Printing.{UdpConfig}
use grpc_server_rust.Registry.{Registry}
use grpc_server_rust.ProtoFiles.{State}
use grpc_server_rust.Server.{contains, Task, Address, v4, v6, check_port_available, TlsConfig}
use grpc_server_rust.Server.Waiting.{IsDone, IsDoneUdp, wait_all_ok}
use grpc_server_rust.Server.Served.{kind, services_of-contains}
use grpc_server_rust.Server.Services.{udp_config_of}
use grpc_server_rust.Server.Start.{
  Router, Started, Environment, load_registry, checked_tls, accepted, tls_of, spawned, then_spawn,
  spawn_routers, routers_of, with_udp, configured, launch, awaited, waited, start_multi,
}

abbrev pub is_some : {A : Type 0} → Option A → Bool
is_some none = false
is_some (some a) = true

abbrev pub address_of : {D : Type 0} → Router D → Address
address_of r = r.address

-- Whether a start has ended with an error.
abbrev pub failed : {F : Type 0} → Option (Result F (Unit {0})) → Bool
failed none = false
failed (some (ok done)) = false
failed (some (err e)) = true

-- The router has exactly the services of the configured gRPC modes, and is secured exactly if it is
-- to be.
abbrev pub IsServing : {D : Type 0} → ServerConfig → Router D → Type 0
IsServing c r =
    ((m : DialoutMode) → contains (map kind r.services) m ≡ (contains c.modes m && not (is_udp m)))
    × (is_some r.tls ≡ c.tls)

if_not :
    (b c : Bool) (xs : List Address) → c ≡ not b → (if b then [] else xs) ≡ (if c then xs else [])
if_not true c xs h = rw h refl
if_not false c xs h = rw h refl

module _ {F P D : Type 0} (env : Environment F P D) where
  accepted-is_some :
      (t : TlsConfig) (o : Outcome F (Unit {0})) (tls : Option TlsConfig)
      → accepted env t o ≡ ok tls
      → is_some tls ≡ true
  accepted-is_some t (ok done) tls h = ground arith
  accepted-is_some t (err e) tls h = absurd (ground arith)

  checked_tls-is_some :
      (o : Result F TlsConfig) (tls : Option TlsConfig)
      → checked_tls env o ≡ ok tls
      → is_some tls ≡ true
  checked_tls-is_some (err e) tls h = absurd (ground arith)
  checked_tls-is_some (ok t) tls h = accepted-is_some t (env.accepts t) tls h

  tls_of-is_some : (b : Bool) (tls : Option TlsConfig) → tls_of env b ≡ ok tls → is_some tls ≡ b
  tls_of-is_some false tls h = ground arith
  tls_of-is_some true tls h = checked_tls-is_some _ tls h

  -- What the loop over the addresses adds, if it ends well.
  abbrev Spawns : ServerConfig → List Address → Started D → Started D × Result F (Unit {0}) → Type 0
  Spawns c addresses t r =
      r.1 ≡ ok tt
      → (map address_of r.0.routers ≡ map address_of t.routers ++ addresses)
        × (All (IsServing c) t.routers → All (IsServing c) r.0.routers)
        × (r.0.udp ≡ t.udp)

  spawned-Spawns :
      (c : ServerConfig) (registry : Option (Registry D)) (a : Address) (addresses : List Address)
      (t : Started D) (rest : Started D → Started D × Result F (Unit {0}))
      (o : Result F (Option TlsConfig))
      → ((u : Started D) → Spawns c addresses u (rest u))
      → ((tls : Option TlsConfig) → o ≡ ok tls → is_some tls ≡ c.tls)
      → Spawns c (a ∷ addresses) t (then_spawn env rest (spawned env c registry a t o))
  spawned-Spawns c registry a addresses t rest (err e) ih secure done = absurd (ground arith)
  spawned-Spawns c registry a addresses t rest (ok tls) ih secure done =
      let added : Started D = (spawned env c registry a t (ok tls)).0 in
      let (found, keeps, same) = ih added done in
      (
        found
            ∙ ap (λ l. l ++ addresses) (map-append address_of t.routers _)
            ∙ append_assoc (map address_of t.routers) (a ∷ []) addresses,
        λ serving. keeps (
            All-append (IsServing c) t.routers _ serving
              ((services_of-contains c registry, secure tls refl), tt)),
        same,
      )

  spawn_routers-Spawns :
      (c : ServerConfig) (registry : Option (Registry D)) (addresses : List Address) (t : Started D)
      → Spawns c addresses t (spawn_routers env c registry addresses t)
  unfolding spawn_routers
  spawn_routers-Spawns c registry [] t done = (sym (append-nil _), λ serving. serving, refl)
  spawn_routers-Spawns c registry (a ∷ addresses) t done =
      spawned-Spawns c registry a addresses t (spawn_routers env c registry addresses)
        (tls_of env c.tls) (spawn_routers-Spawns c registry addresses) (tls_of-is_some c.tls) done

  -- What is spawned where the start gets to the wait.
  abbrev pub IsLaunched : ServerConfig → Started D → Type 0
  IsLaunched c t =
      (has_grpc c || has_udp c ≡ true)
      × (map address_of t.routers ≡ (if has_grpc c then v4 c.port ∷ v6 c.port ∷ [] else []))
      × All (IsServing c) t.routers
      × (t.udp ≡ (if has_udp c then some (udp_config_of c) else none))

  routers_of-Spawns :
      (c : ServerConfig) (r : State D × Result F (Option (Registry D)))
      → (routers_of env c r).1 ≡ ok tt
      → (map address_of (routers_of env c r).0.routers
          ≡ (if is_empty (grpc_modes c) then [] else v4 c.port ∷ v6 c.port ∷ []))
        × All (IsServing c) (routers_of env c r).0.routers
  unfolding routers_of
  routers_of-Spawns c (s, err e) done = absurd (ground arith)
  routers_of-Spawns c (s, ok registry) done =
      let (found, keeps, same) = spawn_routers-Spawns c registry _ _ done in (found, keeps tt)

  with_udp-Spawns :
      (c : ServerConfig) (u : Started D × Result F (Unit {0}))
      → (with_udp env c u).1 ≡ ok tt
      → (u.1 ≡ ok tt)
        × ((with_udp env c u).0.routers ≡ u.0.routers)
        × ((with_udp env c u).0.udp ≡ (if has_udp c then some (udp_config_of c) else none))
  with_udp-Spawns c (t, err e) done = absurd (ground arith)
  with_udp-Spawns c (t, ok u) done = (refl, refl, refl)

  configured-IsLaunched :
      (c : ServerConfig) (s : State D) (b : Bool)
      → is_empty (grpc_modes c) && not (has_udp c) ≡ b
      → (configured env c s b).1 ≡ ok tt
      → IsLaunched c (configured env c s b).0
  configured-IsLaunched c s true test done = absurd (ground arith)
  configured-IsLaunched c s false test done =
      let r = routers_of env c (load_registry env (contains (grpc_modes c) gpb) s) in
      let (spawned', same, listens) = with_udp-Spawns c r done in
      let (addresses, serving) =
        routers_of-Spawns c (load_registry env (contains (grpc_modes c) gpb) s) spawned' in
      let grpc = has_grpc-grpc_modes c in
      (
        ground (arith, grpc, test),
        ap (map address_of) same ∙ addresses ∙ if_not _ _ _ grpc,
        subst (All (IsServing c)) (sym same) serving,
        listens,
      )

  launch-IsLaunched :
      (c : ServerConfig) (s : State D) (available : Outcome Str (Unit {0}))
      → (launch env c s available).1 ≡ ok tt
      → (available ≡ ok tt) × IsLaunched c (launch env c s available).0
  unfolding launch
  launch-IsLaunched c s (err e) done = absurd (ground arith)
  launch-IsLaunched c s (ok tt) done = (refl, configured-IsLaunched c _ _ refl done)

  module _ (served : Router D → Task F) (listened : UdpConfig → Task (AppError F)) where
    -- The tasks have ended without an error.
    abbrev pub AllDone : Started D → Type 0
    AllDone t =
        All (λ r. IsDone (served r)) t.routers × IsDoneUdp (awaited env served listened t.udp)

    All-served :
        (rs : List (Router D)) → All IsDone (map served rs) → All (λ r. IsDone (served r)) rs
    All-served [] h = tt
    All-served (r ∷ rs) (h, hs) = (h, All-served rs hs)

    waited-launched :
        (u : Started D × Result F (Unit {0}))
        → failed (waited env served listened u).1 ≡ false
        → (u.1 ≡ ok tt) × ((waited env served listened u).0 ≡ u.0)
    waited-launched (t, err e) h = absurd (ground arith)
    waited-launched (t, ok tt) h = (refl, refl)

    waited-AllDone :
        (u : Started D × Result F (Unit {0}))
        → (waited env served listened u).1 ≡ some (ok tt)
        → AllDone (waited env served listened u).0
    waited-AllDone (t, err e) done = absurd (ground arith)
    waited-AllDone (t, ok tt) done =
        let (routers, listener) =
          wait_all_ok (map served t.routers) (awaited env served listened t.udp) done in
        (All-served t.routers routers, listener)

    -- A start that has not failed, so that it waits or has returned: the port was free, there was a
    -- mode to serve, and there is a gRPC server for IPv4 and one for IPv6 if there was a gRPC mode,
    -- each with exactly the services of the gRPC modes and with TLS exactly if it is configured, and a
    -- UDP server exactly if there was its mode; and if it has returned, every one of them has ended
    -- without an error.
    pub start_multi_lem :
        (c : ServerConfig) (s : State D)
        → let (t, result) = start_multi env served listened c s in
          failed result ≡ false
          → (check_port_available env.bind c.port ≡ ok tt)
            × IsLaunched c t
            × (result ≡ some (ok tt) → AllDone t)
    unfolding start_multi
    start_multi_lem c s h =
        let u = launch env c s (check_port_available env.bind c.port) in
        let (launched, same) = waited-launched u h in
        let (free, up) = launch-IsLaunched c s (check_port_available env.bind c.port) launched in
        (free, subst (IsLaunched c) (sym same) up, waited-AllDone u)
