-- ===== src/Udp/Heard.antt =====
-- What a call of `UdpDialoutServer::stop` comes to.
use grpc_server_rust.Prelude.{
  ℕ, zero, suc, ◌≡◌, refl, ap, ap₂, ◌∙◌, arith, Bool, true, false, ◌&&◌, ltb, List, [], ◌∷◌, Str,
}
use grpc_server_rust.Error.{Outcome, ok, err}
use grpc_server_rust.Wire.{Json, DialoutCodec}
use grpc_server_rust.Models.Stats.{Stats}
use grpc_server_rust.Udp.Printing.{UdpConfig}
use grpc_server_rust.Udp.{Event, stopped, datagram, failed}
use grpc_server_rust.Udp.Server.{Side, ipv4, ipv6}
use grpc_server_rust.Udp.Apart.{events_of}
use grpc_server_rust.Udp.Ending.{stops, answer, start_answers}
use grpc_server_rust.Udp.Signal.{
  WatchChannel, UdpDialoutServer, new_udp_server, stop_udp_server, Receivers, receiver_of,
  on_select, handled_events, after_signal, start_udp_server,
}

module _ (w : WatchChannel) where
  on_select-unseen :
      (rs : Receivers w) (c : w.Channel) (side : Side) (later : List (Side × Event))
      → w.changed (receiver_of w side rs) c ≡ false
      → on_select w rs c side stopped later ≡ later
  on_select-unseen rs c side later h = rw h refl

  -- A listener whose receiver has nothing new is not stopped by what is offered.
  stops-handled_events :
      (rs : Receivers w) (c : w.Channel)
      → ((side : Side) → w.changed (receiver_of w side rs) c ≡ false)
      → (side : Side) (offered : List (Side × Event))
      → stops (events_of side (handled_events w rs c offered)) ≡ false
  unfolding handled_events
  stops-handled_events rs c h ipv4 [] = refl
  stops-handled_events rs c h ipv6 [] = refl
  stops-handled_events rs c h side ((other, stopped) ∷ offered) =
      ap (λ l. stops (events_of side l))
        (on_select-unseen rs c other (handled_events w rs c offered) (h other))
      ∙ stops-handled_events rs c h side offered
  stops-handled_events rs c h ipv4 ((ipv4, datagram bytes addr) ∷ offered) =
      stops-handled_events rs c h ipv4 offered
  stops-handled_events rs c h ipv4 ((ipv6, datagram bytes addr) ∷ offered) =
      stops-handled_events rs c h ipv4 offered
  stops-handled_events rs c h ipv6 ((ipv4, datagram bytes addr) ∷ offered) =
      stops-handled_events rs c h ipv6 offered
  stops-handled_events rs c h ipv6 ((ipv6, datagram bytes addr) ∷ offered) =
      stops-handled_events rs c h ipv6 offered
  stops-handled_events rs c h ipv4 ((ipv4, failed o k text) ∷ offered) =
      stops-handled_events rs c h ipv4 offered
  stops-handled_events rs c h ipv4 ((ipv6, failed o k text) ∷ offered) =
      stops-handled_events rs c h ipv4 offered
  stops-handled_events rs c h ipv6 ((ipv4, failed o k text) ∷ offered) =
      stops-handled_events rs c h ipv6 offered
  stops-handled_events rs c h ipv6 ((ipv6, failed o k text) ∷ offered) =
      stops-handled_events rs c h ipv6 offered

  -- The server after so many calls of `stop` that come before `start`.
  abbrev pub stopped_before : ℕ → UdpDialoutServer w → UdpDialoutServer w
  stopped_before zero s = s
  stopped_before (suc n) s = stop_udp_server w (stopped_before n s)

  stopped_before-IsOf :
      (config : UdpConfig) (n : ℕ)
      → let s = stopped_before n (new_udp_server w config) in w.IsOf s.stop_receiver s.stop_signal
  unfolding new_udp_server stop_udp_server
  stopped_before-IsOf config zero = w.channel-IsOf false
  stopped_before-IsOf config (suc n) =
      let s = stopped_before n (new_udp_server w config) in
      w.send-IsOf s.stop_receiver s.stop_signal true (stopped_before-IsOf config n)

  -- The receiver that the server holds sees the calls of `stop`.
  server_sees :
      (config : UdpConfig) (n : ℕ)
      → let s = stopped_before n (new_udp_server w config) in
        w.changed s.stop_receiver s.stop_signal ≡ ltb 0 n
  unfolding new_udp_server stop_udp_server
  server_sees config zero = w.channel-changed false ∙ ground arith
  server_sees config (suc n) =
      let s = stopped_before n (new_udp_server w config) in
      w.send-changed s.stop_receiver s.stop_signal true (stopped_before-IsOf config n)
      ∙ ground arith

  after_signal-answer :
      {F : Type 0}
      → (a b : Outcome F (Unit {0})) (seen : Bool)
      → after_signal w seen (answer a b false) ≡ answer a b false
  after_signal-answer (err e) b seen = refl
  after_signal-answer (ok a) (err e) seen = refl
  after_signal-answer (ok a) (ok b) seen = refl

  -- A server that was told to stop any number of times before its start, which is the only time at
  -- which it can be told: its own receiver sees the signal as soon as there was a call, but the
  -- listeners do not. `start` fails where one of the two sockets cannot be bound, with the error of the
  -- first such, and otherwise it does not return, whatever is offered to the listeners.
  pub stop_unheard :
      (json : Json) (codec : DialoutCodec) {F : Type 0} (show : F → Str) (config : UdpConfig)
      → (bind : Side → Outcome F (Unit {0})) (stats : Stats) (offered : List (Side × Event)) (n : ℕ)
      → let s = stopped_before n (new_udp_server w config) in
        (start_udp_server w json codec show s bind stats offered
          ≡ answer (bind ipv4) (bind ipv6) false)
        × (w.changed s.stop_receiver s.stop_signal ≡ ltb 0 n)
  unfolding start_udp_server
  stop_unheard json codec show config bind stats offered n =
      let s = stopped_before n (new_udp_server w config) in
      let c = s.stop_signal in
      let rs : Receivers w = record { v4 = w.subscribe c; v6 = w.subscribe c } in
      let unseen : (side : Side) → w.changed (receiver_of w side rs) c ≡ false = fresh c in
      let seen = w.changed s.stop_receiver c in
      (
        ap (after_signal w seen) (
              start_answers json codec show s.config bind stats (handled_events w rs c offered)
              ∙ ap₂ (λ a b. answer (bind ipv4) (bind ipv6) (a && b))
                  (stops-handled_events rs c unseen ipv4 offered)
                  (stops-handled_events rs c unseen ipv6 offered))
            ∙ after_signal-answer (bind ipv4) (bind ipv6) seen,
        server_sees config n,
      )
    where
      fresh :
          (c : w.Channel) (side : Side)
          → w.changed (receiver_of w side (record { v4 = w.subscribe c; v6 = w.subscribe c })) c
            ≡ false
      fresh c ipv4 = w.subscribe-changed c
      fresh c ipv6 = w.subscribe-changed c
