-- ===== src/Udp/Apart.antt =====
-- What the two listeners of the UDP server share, and what not.
use grpc_server_rust.Prelude.{
  ℕ, ◌+◌, ◌%◌, ◌^◌, ◌≡◌, refl, ap, ap₂, ◌∙◌, inl, inr, arith, Bool, Bool-cases, true, false, List,
  [], ◌∷◌, Bytes, Str,
}
use mathlib.Core.Path.{subst}
use grpc_server_rust.Wire.{Json, DialoutCodec}
use grpc_server_rust.Models.Stats.{Stats, incr_msg_count}
use grpc_server_rust.Udp.Printing.{UdpConfig}
use grpc_server_rust.Udp.{
  Event, stopped, datagram, failed, Listener, on_datagram, on_failed, run_udp_listener,
}
use grpc_server_rust.Udp.Counting.{received, on_datagram_counts}
use grpc_server_rust.Udp.Server.{
  Side, ipv4, ipv6, ip_type, Local, Listeners, local, listener_of, local_of, handled, turn,
  run_listeners,
}

-- The events of one side of a schedule.
abbrev pub events_of : Side → List (Side × Event) → List Event
events_of side [] = []
events_of ipv4 ((ipv4, e) ∷ schedule) = e ∷ events_of ipv4 schedule
events_of ipv4 ((ipv6, e) ∷ schedule) = events_of ipv4 schedule
events_of ipv6 ((ipv4, e) ∷ schedule) = events_of ipv6 schedule
events_of ipv6 ((ipv6, e) ∷ schedule) = e ∷ events_of ipv6 schedule

-- The variables and the lines are those of the listener; the counters may differ.
abbrev pub Agrees : Local → Listener → Type 0
Agrees l s = (l.count ≡ s.count) × (l.chunk_data ≡ s.chunk_data) × (l.log ≡ s.log)

module _ (json : Json) (codec : DialoutCodec) {F : Type 0} (show : F → Str)
    (config : UdpConfig) where
  abbrev run : Listeners → List (Side × Event) → Listeners
  run t schedule = run_listeners json codec show config t schedule

  abbrev pub alone : Side → Listener → List Event → Listener
  alone side s events = run_udp_listener json codec show config (ip_type side) s events

  handled-ended :
      (b : Bool) (ip : Str) (stats : Stats) (l : Local) (e : Event)
      → b ≡ true
      → (handled json codec show config b ip stats l e).1 ≡ l
  handled-ended true ip stats l e h = refl
  handled-ended false ip stats l e h = cc h

  -- A listener that has ended stays as it is.
  run_listeners-ended :
      (side : Side) (schedule : List (Side × Event)) (t : Listeners)
      → (local side t).ended ≡ true
      → local side (run t schedule) ≡ local side t
  unfolding run_listeners
  run_listeners-ended side [] t h = refl
  run_listeners-ended ipv4 ((ipv4, e) ∷ schedule) t h =
      let same = handled-ended t.v4.ended (ip_type ipv4) t.stats t.v4 e h in
      run_listeners-ended ipv4 schedule (turn json codec show config t ipv4 e)
        (ap (λ l. l.ended) same ∙ h)
      ∙ same
  run_listeners-ended ipv4 ((ipv6, e) ∷ schedule) t h =
      run_listeners-ended ipv4 schedule (turn json codec show config t ipv6 e) h
  run_listeners-ended ipv6 ((ipv4, e) ∷ schedule) t h =
      run_listeners-ended ipv6 schedule (turn json codec show config t ipv4 e) h
  run_listeners-ended ipv6 ((ipv6, e) ∷ schedule) t h =
      let same = handled-ended t.v6.ended (ip_type ipv6) t.stats t.v6 e h in
      run_listeners-ended ipv6 schedule (turn json codec show config t ipv6 e)
        (ap (λ l. l.ended) same ∙ h)
      ∙ same

  -- The counters do not matter to what a listener does with a datagram.
  on_datagram-stats :
      (ip : Str) (u stats : Stats) (l : Local) (bytes : Bytes) (addr : Str)
      → let step =
          λ (x : Stats). on_datagram json codec show config ip (listener_of x l) bytes addr in
        listener_of (incr_msg_count u) (local_of (step stats)) ≡ step u
  unfolding on_datagram
  on_datagram-stats ip u stats l bytes addr = elim (Bool-cases config.performance_mode) [
    | inl fast ↦ rw fast refl
    | inr slow ↦ rw slow refl
  ]

  -- One event of a listener, and what follows it up to the final variables.
  agree_event :
      (side : Side) (b : Bool) (u stats : Stats) (l : Local) (e : Event) (events : List Event)
      (final : Local)
      → b ≡ false
      → l.ended ≡ b
      → let l' = (handled json codec show config b (ip_type side) stats l e).1 in
        (l'.ended ≡ true → final ≡ l')
        → (l'.ended ≡ false → (u' : Stats) → Agrees final (alone side (listener_of u' l') events))
        → Agrees final (alone side (listener_of u l) (e ∷ events))
  unfolding run_udp_listener on_failed
  agree_event side true u stats l e events final h same ends goes = cc h
  agree_event side false u stats l stopped events final h same ends goes =
      let r = ends refl in (ap (λ x. x.count) r, ap (λ x. x.chunk_data) r, ap (λ x. x.log) r)
  agree_event side false u stats l (datagram bytes addr) events final h same ends goes =
      subst (λ s. Agrees final (alone side s events))
        (on_datagram-stats (ip_type side) u stats l bytes addr) (goes refl (incr_msg_count u))
  agree_event side false u stats l (failed o w text) events final h same ends goes = goes refl u

  pub listener_apart :
      (side : Side) (schedule : List (Side × Event)) (t : Listeners) (u : Stats)
      → (local side t).ended ≡ false
      → Agrees
          (local side (run t schedule))
          (alone side (listener_of u (local side t)) (events_of side schedule))
  unfolding run_listeners run_udp_listener
  listener_apart side [] t u h = (refl, refl, refl)
  listener_apart ipv4 ((ipv4, e) ∷ schedule) t u h =
      let t' = turn json codec show config t ipv4 e in
      agree_event ipv4 t.v4.ended u t.stats t.v4 e (events_of ipv4 schedule)
        (local ipv4 (run t' schedule)) h refl (run_listeners-ended ipv4 schedule t')
        (λ on u'. listener_apart ipv4 schedule t' u' on)
  listener_apart ipv4 ((ipv6, e) ∷ schedule) t u h =
      listener_apart ipv4 schedule (turn json codec show config t ipv6 e) u h
  listener_apart ipv6 ((ipv4, e) ∷ schedule) t u h =
      listener_apart ipv6 schedule (turn json codec show config t ipv4 e) u h
  listener_apart ipv6 ((ipv6, e) ∷ schedule) t u h =
      let t' = turn json codec show config t ipv6 e in
      agree_event ipv6 t.v6.ended u t.stats t.v6 e (events_of ipv6 schedule)
        (local ipv6 (run t' schedule)) h refl (run_listeners-ended ipv6 schedule t')
        (λ on u'. listener_apart ipv6 schedule t' u' on)

  -- The datagrams that a listener still takes.
  abbrev pending : Bool → List Event → ℕ
  pending true events = 0
  pending false events = received events

  pending_none : (b : Bool) → pending b [] ≡ 0
  pending_none true = refl
  pending_none false = refl

  handled_counts :
      (b : Bool) (ip : Str) (stats : Stats) (l : Local) (e : Event) (events : List Event)
      → l.ended ≡ b
      → let (stats', l') = handled json codec show config b ip stats l e in
        ((stats'.msg_count + pending l'.ended events) % 2 ^ 64
          ≡ (stats.msg_count + pending b (e ∷ events)) % 2 ^ 64)
        × (stats'.client_count ≡ stats.client_count)
  unfolding on_failed
  handled_counts true ip stats l e events h = (rw h refl, refl)
  handled_counts false ip stats l stopped events h = (refl, refl)
  handled_counts false ip stats l (datagram bytes addr) events h =
      let (up, counted) =
        on_datagram_counts json codec show ip config (listener_of stats l) bytes addr in
      (omega (arith, ap (λ x. x.msg_count) counted), ap (λ x. x.client_count) counted)
  handled_counts false ip stats l (failed o w text) events h = (refl, refl)

  run_listeners_counts :
      (schedule : List (Side × Event)) (t : Listeners)
      → ((run t schedule).stats.msg_count % 2 ^ 64
          ≡ (t.stats.msg_count
              + pending t.v4.ended (events_of ipv4 schedule)
              + pending t.v6.ended (events_of ipv6 schedule))
            % 2 ^ 64)
        × ((run t schedule).stats.client_count ≡ t.stats.client_count)
  unfolding run_listeners
  run_listeners_counts [] t =
      (omega (arith, pending_none t.v4.ended, pending_none t.v6.ended), refl)
  run_listeners_counts ((ipv4, e) ∷ schedule) t =
      let (first, kept) =
        handled_counts t.v4.ended (ip_type ipv4) t.stats t.v4 e (events_of ipv4 schedule) refl in
      let (more, same) = run_listeners_counts schedule (turn json codec show config t ipv4 e) in
      (omega (arith, first, more), same ∙ kept)
  run_listeners_counts ((ipv6, e) ∷ schedule) t =
      let (first, kept) =
        handled_counts t.v6.ended (ip_type ipv6) t.stats t.v6 e (events_of ipv6 schedule) refl in
      let (more, same) = run_listeners_counts schedule (turn json codec show config t ipv6 e) in
      (omega (arith, first, more), same ∙ kept)

  -- Two listeners that have not ended, over any schedule of their events: each has the counter, the
  -- reassembly buffer and the lines that it would have alone over its own events, whatever counters
  -- the other is given, and the global message counter goes up by the datagrams of both, modulo
  -- 2 ^ 64, each up to its own stop signal.
  pub listeners_apart :
      (t : Listeners) (schedule : List (Side × Event)) (u : Stats)
      → t.v4.ended ≡ false
      → t.v6.ended ≡ false
      → Agrees (run t schedule).v4 (alone ipv4 (listener_of u t.v4) (events_of ipv4 schedule))
        × Agrees (run t schedule).v6 (alone ipv6 (listener_of u t.v6) (events_of ipv6 schedule))
        × ((run t schedule).stats.msg_count % 2 ^ 64
            ≡ (t.stats.msg_count
                + received (events_of ipv4 schedule)
                + received (events_of ipv6 schedule))
              % 2 ^ 64)
        × ((run t schedule).stats.client_count ≡ t.stats.client_count)
  listeners_apart t schedule u on4 on6 =
      let (counted, kept) = run_listeners_counts schedule t in
      (
        listener_apart ipv4 schedule t u on4,
        listener_apart ipv6 schedule t u on6,
        counted
            ∙ ap (λ n. n % 2 ^ 64)
                (ap₂
                  (λ a b.
                    t.stats.msg_count
                    + pending a (events_of ipv4 schedule)
                    + pending b (events_of ipv6 schedule))
                  on4 on6),
        kept,
      )
