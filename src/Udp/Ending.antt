-- ===== src/Udp/Ending.antt =====
-- When the UDP server returns.
use grpc_server_rust.Prelude.{
  ◌≡◌, refl, ◌∙◌, arith, Bool, true, false, ◌&&◌, ◌||◌, Option, none, some, List, [], ◌∷◌, Str,
}
use grpc_server_rust.Error.{io, Outcome, ok, err, Result}
use grpc_server_rust.Wire.{Json, DialoutCodec}
use grpc_server_rust.Models.Stats.{Stats}
use grpc_server_rust.Udp.Printing.{UdpConfig}
use grpc_server_rust.Udp.{Event, stopped, datagram, failed}
use grpc_server_rust.Udp.Server.{
  Side, ipv4, ipv6, ip_type, Local, fresh, Listeners, local, handled, turn, run_listeners, joined,
  after_bind, start,
}
use grpc_server_rust.Udp.Apart.{events_of}

-- Whether there is a stop signal among the events.
abbrev pub stops : List Event → Bool
stops [] = false
stops (stopped ∷ events) = true
stops (datagram bytes addr ∷ events) = stops events
stops (failed o w text ∷ events) = stops events

-- What `start` answers to the two bindings and the end of both listeners.
abbrev pub answer :
    {F : Type 0} → Outcome F (Unit {0}) → Outcome F (Unit {0}) → Bool → Option (Result F (Unit {0}))
answer (err e) bound both = some (err (io e))
answer (ok b) (err e) both = some (err (io e))
answer (ok b) (ok b') true = some (ok tt)
answer (ok b) (ok b') false = none

module _ (json : Json) (codec : DialoutCodec) {F : Type 0} (show : F → Str)
    (config : UdpConfig) where
  handled-stops :
      (b : Bool) (ip : Str) (stats : Stats) (l : Local) (e : Event) (events : List Event)
      → l.ended ≡ b
      → ((handled json codec show config b ip stats l e).1.ended || stops events)
        ≡ (b || stops (e ∷ events))
  handled-stops true ip stats l e events h = rw h refl
  handled-stops false ip stats l stopped events h = refl
  handled-stops false ip stats l (datagram bytes addr) events h = refl
  handled-stops false ip stats l (failed o w text) events h = refl

  run_listeners-stops :
      (side : Side) (schedule : List (Side × Event)) (t : Listeners)
      → (local side (run_listeners json codec show config t schedule)).ended
        ≡ ((local side t).ended || stops (events_of side schedule))
  unfolding run_listeners
  run_listeners-stops side [] t = ground arith
  run_listeners-stops ipv4 ((ipv4, e) ∷ schedule) t =
      run_listeners-stops ipv4 schedule (turn json codec show config t ipv4 e)
      ∙ handled-stops t.v4.ended (ip_type ipv4) t.stats t.v4 e (events_of ipv4 schedule) refl
  run_listeners-stops ipv4 ((ipv6, e) ∷ schedule) t =
      run_listeners-stops ipv4 schedule (turn json codec show config t ipv6 e)
  run_listeners-stops ipv6 ((ipv4, e) ∷ schedule) t =
      run_listeners-stops ipv6 schedule (turn json codec show config t ipv4 e)
  run_listeners-stops ipv6 ((ipv6, e) ∷ schedule) t =
      run_listeners-stops ipv6 schedule (turn json codec show config t ipv6 e)
      ∙ handled-stops t.v6.ended (ip_type ipv6) t.stats t.v6 e (events_of ipv6 schedule) refl

  joined-answer :
      (t : Listeners) (a b : Bool)
      → t.v4.ended ≡ a
      → t.v6.ended ≡ b
      → (joined json codec show config t).2 ≡ answer {F = F} (ok tt) (ok tt) (a && b)
  joined-answer t true true h k = rw (h, k) refl
  joined-answer t true false h k = rw (h, k) refl
  joined-answer t false b h k = rw h refl

  after_bind-answer :
      (stats : Stats) (schedule : List (Side × Event)) (a b : Outcome F (Unit {0}))
      → (after_bind json codec show config stats schedule a b).2
        ≡ answer a b (stops (events_of ipv4 schedule) && stops (events_of ipv6 schedule))
  after_bind-answer stats schedule (err e) b = refl
  after_bind-answer stats schedule (ok done) (err e) = refl
  after_bind-answer stats schedule (ok done) (ok more) =
      let first : Listeners = record { v4 = fresh; v6 = fresh; stats = stats } in
      joined-answer (run_listeners json codec show config first schedule)
        (stops (events_of ipv4 schedule)) (stops (events_of ipv6 schedule))
        (run_listeners-stops ipv4 schedule first) (run_listeners-stops ipv6 schedule first)

  -- The server fails where one of the two sockets cannot be bound, IPv6 included, with the error of
  -- the first such; and otherwise it returns, without an error, once each of the two listeners has
  -- had a stop signal, over every schedule, and never before.
  pub start_answers :
      (bind : Side → Outcome F (Unit {0})) (stats : Stats) (schedule : List (Side × Event))
      → (start json codec show config bind stats schedule).2
        ≡ answer
            (bind ipv4)
            (bind ipv6)
            (stops (events_of ipv4 schedule) && stops (events_of ipv6 schedule))
  unfolding start
  start_answers bind stats schedule = after_bind-answer stats schedule (bind ipv4) (bind ipv6)
