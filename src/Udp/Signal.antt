-- ===== src/Udp/Signal.antt =====
-- `UdpDialoutServer` of src-tauri/src/dialout/udp.rs and its stop signal: `new`, `stop`, and the receivers
-- of the signal that `start` takes. The watch channel of tokio is a record of what it documents. `start`
-- borrows the server as `&mut self` until it returns, so that `stop` can be called before it only. A
-- listener takes up a stop signal only if its receiver has a value that it has not seen.
use grpc_server_rust.Prelude.{
  ◌≡◌, Bool, true, false, Option, none, some, List, [], ◌∷◌, Str, if◌then◌else◌,
}
use grpc_server_rust.Error.{Outcome, ok, err, Result}
use grpc_server_rust.Wire.{Json, DialoutCodec}
use grpc_server_rust.Models.Stats.{Stats}
use grpc_server_rust.Udp.Printing.{UdpConfig}
use grpc_server_rust.Udp.{Event, stopped, datagram, failed}
use grpc_server_rust.Udp.Server.{Side, ipv4, ipv6, start}

-- `tokio::sync::watch`: whether `changed` returns at once is asked of a receiver and the channel.
pub record WatchChannel : Type 1 where
  pub Channel : Type 0
  pub Receiver : Type 0
  pub channel : Bool → Channel × Receiver
  pub subscribe : Channel → Receiver
  pub send : Bool → Channel → Channel
  pub changed : Receiver → Channel → Bool
  pub IsOf : Receiver → Channel → Type 0
  pub channel-IsOf : (b : Bool) → IsOf (channel b).1 (channel b).0
  pub channel-changed : (b : Bool) → changed (channel b).1 (channel b).0 ≡ false
  pub subscribe-changed : (c : Channel) → changed (subscribe c) c ≡ false
  pub send-IsOf : (r : Receiver) (c : Channel) (b : Bool) → IsOf r c → IsOf r (send b c)
  pub send-changed :
      (r : Receiver) (c : Channel) (b : Bool) → IsOf r c → changed r (send b c) ≡ true

module _ (w : WatchChannel) where
  pub record UdpDialoutServer : Type 0 where
    pub config : UdpConfig
    pub stop_signal : w.Channel
    pub stop_receiver : w.Receiver

  unfoldable pub new_udp_server : UdpConfig → UdpDialoutServer
  new_udp_server config =
      let made = w.channel false in
      record { config = config; stop_signal = made.0; stop_receiver = made.1 }

  -- The server holds a receiver itself, so that there is one and `send` does not fail.
  unfoldable pub stop_udp_server : UdpDialoutServer → UdpDialoutServer
  stop_udp_server s = record s { stop_signal = w.send true s.stop_signal }

  -- The receivers that `start` makes for the two listeners.
  pub record Receivers : Type 0 where
    pub v4 : w.Receiver
    pub v6 : w.Receiver

  abbrev pub receiver_of : Side → Receivers → w.Receiver
  receiver_of ipv4 rs = rs.v4
  receiver_of ipv6 rs = rs.v6

  -- One arm of the `select!` of a listener, with what is handled later.
  abbrev pub on_select :
      Receivers → w.Channel → Side → Event → List (Side × Event) → List (Side × Event)
  on_select rs c side stopped later =
      if w.changed (receiver_of side rs) c then (side, stopped) ∷ later else later
  on_select rs c side (datagram bytes addr) later = (side, datagram bytes addr) ∷ later
  on_select rs c side (failed os_error would_block text) later =
      (side, failed os_error would_block text) ∷ later

  -- What the listeners handle of the events that are offered to them while `start` runs; the channel
  -- is as it was then.
  unfoldable pub handled_events : Receivers → w.Channel → List (Side × Event) → List (Side × Event)
  handled_events rs c [] = []
  handled_events rs c ((side, e) ∷ offered) = on_select rs c side e (handled_events rs c offered)

  -- `stop_rx.changed().await` stands before the joins: there is no success before it returns.
  abbrev pub after_signal :
      {F : Type 0} → Bool → Option (Result F (Unit {0})) → Option (Result F (Unit {0}))
  after_signal seen none = none
  after_signal seen (some (err e)) = some (err e)
  after_signal true (some (ok done)) = some (ok done)
  after_signal false (some (ok done)) = none

  -- What `start` comes to over the events that are offered; the receiver of the server itself was made
  -- by `new`.
  unfoldable pub start_udp_server :
      Json
      → DialoutCodec
      → {F : Type 0} → (F → Str)
      → UdpDialoutServer
      → (Side → Outcome F (Unit {0}))
      → Stats
      → List (Side × Event)
      → Option (Result F (Unit {0}))
  unfolding handled_events start
  start_udp_server json codec show s bind stats offered =
      let rs : Receivers = record {
        v4 = w.subscribe s.stop_signal;
        v6 = w.subscribe s.stop_signal;
      } in
      after_signal (w.changed s.stop_receiver s.stop_signal)
        (start json codec show s.config bind stats (handled_events rs s.stop_signal offered)).2
