-- ===== src/Tests/SignalRuns.antt =====
-- Stops of the UDP server of src-tauri/src/dialout/udp.rs, over a channel that counts its values.
use grpc_server_rust.Prelude.{
  ℕ, suc, ◌≤◌, ◌≡◌, arith, Bool, true, false, none, List, [], ◌∷◌, Str, str, ltb,
}
use grpc_server_rust.Error.{Outcome, ok}
use grpc_server_rust.Models.Stats.{Stats}
use grpc_server_rust.Udp.Printing.{UdpConfig}
use grpc_server_rust.Udp.{Event, stopped, datagram}
use grpc_server_rust.Udp.Server.{Side, ipv4, ipv6}
use grpc_server_rust.Udp.Signal.{WatchChannel, new_udp_server, start_udp_server}
use grpc_server_rust.Udp.Heard.{stopped_before, stop_unheard}
use grpc_server_rust.Tests.Libraries.{any_json, any_codec}

own_version_seen : (v : ℕ) → ltb v v ≡ false
own_version_seen v = ground arith

next_version_unseen : (r v : ℕ) → r ≤ v → ltb r (suc v) ≡ true
next_version_unseen r v h = ground arith

next_version_above : (r v : ℕ) → r ≤ v → r ≤ suc v
next_version_above r v h = ground arith

from_zero : (v : ℕ) → 0 ≤ v
from_zero v = ground arith

-- The channel is the number of values sent and the last of them; a receiver is the number it has seen.
abbrev versions : WatchChannel
versions = record {
  Channel = ℕ × Bool;
  Receiver = ℕ;
  channel = λ b. ((0, b), 0);
  subscribe = λ c. c.0;
  send = λ b c. (suc c.0, b);
  changed = λ r c. ltb r c.0;
  IsOf = λ r c. r ≤ c.0;
  channel-IsOf = λ b. from_zero 0;
  channel-changed = λ b. own_version_seen 0;
  subscribe-changed = λ c. own_version_seen c.0;
  send-IsOf = λ r c b h. next_version_above r c.0 h;
  send-changed = λ r c b h. next_version_unseen r c.0 h;
}

abbrev settings : UdpConfig
settings = record {
  port = 50051;
  orignal = false;
  format_json = false;
  including_default = false;
  performance_mode = true;
}

abbrev show : Str → Str
show e = e

abbrev stats : Stats
stats = record { msg_count = 40; client_count = 2 }

abbrev bind : Side → Outcome Str (Unit {0})
bind side = ok tt

abbrev offered : List (Side × Event)
offered =
    (ipv4, stopped)
    ∷ (ipv6, datagram (str "short") (str "h2"))
    ∷ (ipv6, stopped)
    ∷ (ipv4, datagram (str "late") (str "h1"))
    ∷ []

-- Both sockets are bound; the server was told to stop twice, and runs on.
stop_unheard_example :
    let s = stopped_before versions 2 (new_udp_server versions settings) in
    (start_udp_server versions any_json any_codec show s bind stats offered ≡ none)
    × (versions.changed s.stop_receiver s.stop_signal ≡ true)
stop_unheard_example = stop_unheard versions any_json any_codec show settings bind stats offered 2
