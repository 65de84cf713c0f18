-- ===== src/Gui/Program.antt =====
-- The window of src-tauri/src/gui.rs with the server that it starts: from the names of modes that it sends
-- to the servers that listen.
use grpc_server_rust.Prelude.{
  ℕ, ◌≡◌, refl, sym, ap, ap₂, ◌∙◌, arith, Bool, true, false, not, ◌&&◌, ◌||◌, Option, none, some,
  List, [], ◌∷◌, map, All, Str, if◌then◌else◌,
}
use mathlib.Core.Path.{subst}
use grpc_server_rust.Error.{AppError, Outcome, ok, err}
use grpc_server_rust.Models.{
  DialoutMode, normal, gpb, gnmi, udp, from_str_lossy, ServerConfig, is_grpc, is_udp, any, has_grpc,
  has_udp,
}
use grpc_server_rust.Gui.{
  GuiConfig, Session, Thread, running, mode_or_error, in_front, collect_modes, dialout_modes,
  to_server_config, prepared, launched, start_server,
}
use grpc_server_rust.Gui.Commands.{start_free}
use grpc_server_rust.Udp.Printing.{UdpConfig}
use grpc_server_rust.ProtoFiles.{State}
use grpc_server_rust.Server.{same_mode, contains, Task, v4, v6, check_port_available}
use grpc_server_rust.Server.Served.{kind}
use grpc_server_rust.Server.Services.{udp_config_of}
use grpc_server_rust.Server.Start.{Router, Started, Environment, start_multi}
use grpc_server_rust.Server.Launch.{is_some, address_of, failed, IsServing, start_multi_lem}

-- Whether a mode is among the names; no name at all stands for the first mode.
abbrev pub is_this : Option DialoutMode → DialoutMode → Bool
is_this none m = false
is_this (some n) m = same_mode n m

abbrev pub among : List Str → DialoutMode → Bool
among [] m = false
among (s ∷ ss) m = is_this (from_str_lossy s) m || among ss m

abbrev pub named : List Str → DialoutMode → Bool
named [] m = same_mode normal m
named (s ∷ ss) m = among (s ∷ ss) m

in_front-contains :
    (s : Str) (o : Option DialoutMode) (r : Outcome Str (List DialoutMode)) (ms : List DialoutMode)
    (m : DialoutMode) (b : Bool)
    → in_front (mode_or_error s o) r ≡ ok ms
    → ((rest : List DialoutMode) → r ≡ ok rest → contains rest m ≡ b)
    → contains ms m ≡ (is_this o m || b)
unfolding contains
in_front-contains s none r ms m b h ih = absurd (ground (arith, h))
in_front-contains s (some n) (err e) ms m b h ih = absurd (ground (arith, h))
in_front-contains s (some n) (ok rest) ms m b h ih =
    let e : ms ≡ n ∷ rest = ground (arith, h) in
    ap (λ l. contains l m) e ∙ ap (λ x. same_mode n m || x) (ih rest refl)

collect_modes-contains :
    (ss : List Str) (ms : List DialoutMode) (m : DialoutMode)
    → collect_modes ss ≡ ok ms
    → contains ms m ≡ among ss m
unfolding collect_modes contains
collect_modes-contains [] ms m h = let e : ms ≡ [] = ground (arith, h) in ap (λ l. contains l m) e
collect_modes-contains (s ∷ ss) ms m h =
    in_front-contains s (from_str_lossy s) (collect_modes ss) ms m (among ss m) h
      (λ rest done. collect_modes-contains ss rest m done)

dialout_modes-contains :
    (ss : List Str) (ms : List DialoutMode) (m : DialoutMode)
    → dialout_modes ss ≡ ok ms
    → contains ms m ≡ named ss m
unfolding dialout_modes contains
dialout_modes-contains [] ms m h =
    let e : ms ≡ normal ∷ [] = ground (arith, h) in
    ap (λ l. contains l m) e ∙ or_false (same_mode normal m)
  where
    or_false : (b : Bool) → (b || false) ≡ b
    or_false true = refl
    or_false false = refl
dialout_modes-contains (s ∷ ss) ms m h = collect_modes-contains (s ∷ ss) ms m h

-- The tests of a configuration by what it contains.
any_grpc-contains :
    (ms : List DialoutMode)
    → any is_grpc ms ≡ (contains ms normal || (contains ms gpb || contains ms gnmi))
unfolding contains is_grpc
any_grpc-contains [] = refl
any_grpc-contains (normal ∷ ms) = refl
any_grpc-contains (gpb ∷ ms) = ground (arith, any_grpc-contains ms)
any_grpc-contains (gnmi ∷ ms) = ground (arith, any_grpc-contains ms)
any_grpc-contains (udp ∷ ms) = any_grpc-contains ms

any_udp-contains : (ms : List DialoutMode) → any is_udp ms ≡ contains ms udp
unfolding contains is_udp
any_udp-contains [] = refl
any_udp-contains (normal ∷ ms) = any_udp-contains ms
any_udp-contains (gpb ∷ ms) = any_udp-contains ms
any_udp-contains (gnmi ∷ ms) = any_udp-contains ms
any_udp-contains (udp ∷ ms) = refl

-- The thread of a start is that of the modes that were read.
launched-thread :
    {F : Type 0} (c : GuiConfig) (o : Outcome Str (List DialoutMode)) (s : Session F) (t : Thread)
    → (launched c o s).0.server_thread ≡ some t
    → (ms : List DialoutMode) × (o ≡ ok ms) × (t.config ≡ to_server_config c ms)
launched-thread c (err e) s t h = absurd (ground (arith, h))
launched-thread c (ok ms) s t h = (ms, refl, ground (arith, h))

module _ {F P D : Type 0} (env : Environment F P D) (served : Router D → Task F)
    (listened : UdpConfig → Task (AppError F)) where
  -- The servers of the names.
  abbrev pub IsServed : GuiConfig → ServerConfig → Started D → Type 0
  IsServed c config t =
      (map address_of t.routers ≡ (
        if named c.modes normal || (named c.modes gpb || named c.modes gnmi)
        then v4 c.port ∷ v6 c.port ∷ []
        else []))
      × All
          (λ r.
            ((m : DialoutMode)
              → contains (map kind r.services) m ≡ (named c.modes m && not (is_udp m)))
            × (is_some r.tls ≡ c.tls))
          t.routers
      × (t.udp ≡ (if named c.modes udp then some (udp_config_of config) else none))

  module _ (c : GuiConfig) (ms : List DialoutMode) (h : dialout_modes c.modes ≡ ok ms) where
    window_has_grpc :
        has_grpc (to_server_config c ms)
        ≡ (named c.modes normal || (named c.modes gpb || named c.modes gnmi))
    unfolding has_grpc to_server_config
    window_has_grpc =
        any_grpc-contains ms
        ∙ ap₂ (λ a b. a || b) (dialout_modes-contains c.modes ms normal h)
            (ap₂ (λ a b. a || b) (dialout_modes-contains c.modes ms gpb h)
              (dialout_modes-contains c.modes ms gnmi h))

    window_has_udp : has_udp (to_server_config c ms) ≡ named c.modes udp
    unfolding has_udp to_server_config
    window_has_udp = any_udp-contains ms ∙ dialout_modes-contains c.modes ms udp h

    window_serving :
        (rs : List (Router D))
        → All (IsServing (to_server_config c ms)) rs
        → All
            (λ r.
              ((m : DialoutMode)
                → contains (map kind r.services) m ≡ (named c.modes m && not (is_udp m)))
              × (is_some r.tls ≡ c.tls))
            rs
    unfolding to_server_config
    window_serving [] hs = tt
    window_serving (r ∷ rs) ((has, secure), hs) = (
      (λ m. has m ∙ ap (λ b. b && not (is_udp m)) (dialout_modes-contains c.modes ms m h), secure),
      window_serving rs hs,
    )

    window_launched :
        (s : State D)
        → failed (start_multi env served listened (to_server_config c ms) s).1 ≡ false
        → (check_port_available env.bind c.port ≡ ok tt)
          × IsServed c
              (to_server_config c ms)
              (start_multi env served listened (to_server_config c ms) s).0
    unfolding to_server_config
    window_launched s fine =
        let (free, (some_mode, addresses, each, udp_server), done) =
          start_multi_lem env served listened (to_server_config c ms) s fine in
        (
          free,
          (
            addresses ∙ ap (λ b. if b then v4 c.port ∷ v6 c.port ∷ [] else []) window_has_grpc,
            window_serving _ each,
            udp_server
                ∙ ap (λ b. if b then some (udp_config_of (to_server_config c ms)) else none)
                    window_has_udp,
          ),
        )

  -- A start from the window where no server runs, up to the servers: if it leaves a thread whose server
  -- has not failed, the port was free, and there are a gRPC server for IPv4 and one for IPv6 if the
  -- name of a gRPC mode or no name was sent, each with exactly the services of the named modes and
  -- with TLS exactly if it was asked for, and a UDP server exactly if its mode was named.
  pub start_server-start_multi :
      (c : GuiConfig) (now : ℕ) (opened : Outcome Str (F × Str × Str)) (session : Session F)
      (t : Thread) (s : State D)
      → running session.server_thread ≡ false
      → (start_server c now opened session).0.server_thread ≡ some t
      → failed (start_multi env served listened t.config s).1 ≡ false
      → (check_port_available env.bind c.port ≡ ok tt)
        × IsServed c t.config (start_multi env served listened t.config s).0
  start_server-start_multi c now opened session t s free thread fine =
      let ready : Session F = prepared c now opened session in
      let (ms, modes, config) =
        launched-thread c (dialout_modes c.modes) ready t
          (sym (ap (λ r. r.0.server_thread) (start_free c now opened session free)) ∙ thread) in
      let goal = λ (sc : ServerConfig).
        (check_port_available env.bind c.port ≡ ok tt)
        × IsServed c sc (start_multi env served listened sc s).0 in
      subst goal (sym config) (
        window_launched c ms modes s
          (ap (λ sc. failed (start_multi env served listened sc s).1) (sym config) ∙ fine))
