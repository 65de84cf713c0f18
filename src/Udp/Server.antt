-- ===== src/Udp/Server.antt =====
-- `UdpDialoutServer` of src-tauri/src/dialout/udp.rs: the two listeners, which run at the same time and
-- share the global counters. A schedule is the order in which the events of both are handled; the
-- text of the port's address is left out of what `bind` is asked.
use grpc_server_rust.Prelude.{
  ℕ, Bool, true, false, ◌&&◌, Option, none, some, List, [], ◌∷◌, ◌++◌, Bytes, Str, str, fmt_nat,
  if◌then◌else◌,
}
use grpc_server_rust.Error.{io, Outcome, ok, err, Result}
use grpc_server_rust.Log.{info, LogLine}
use grpc_server_rust.Wire.{Json, DialoutCodec}
use grpc_server_rust.Models.Stats.{Stats}
use grpc_server_rust.Udp.Printing.{UdpConfig}
use grpc_server_rust.Udp.{Event, stopped, datagram, failed, Listener, on_datagram, on_failed}

pub data Side : Type 0 where
  ipv4 ipv6 : Side

abbrev pub ip_type : Side → Str
ip_type ipv4 = str "ipv4"
ip_type ipv6 = str "ipv6"

-- The variables of one listener with its lines, and whether its loop has ended.
pub record Local : Type 0 where
  pub count : ℕ
  pub chunk_data : Bytes
  pub log : List LogLine
  pub ended : Bool

pub record Listeners : Type 0 where
  pub v4 : Local
  pub v6 : Local
  pub stats : Stats

abbrev pub local : Side → Listeners → Local
local ipv4 t = t.v4
local ipv6 t = t.v6

abbrev pub put : Side → Stats × Local → Listeners → Listeners
put ipv4 (stats, l) t = record t { v4 = l; stats = stats }
put ipv6 (stats, l) t = record t { v6 = l; stats = stats }

-- A listener with the counters as they are when it runs, and its variables afterwards.
abbrev pub listener_of : Stats → Local → Listener
listener_of stats l = record {
  count = l.count;
  chunk_data = l.chunk_data;
  stats = stats;
  log = l.log;
}

abbrev pub local_of : Listener → Local
local_of s = record { count = s.count; chunk_data = s.chunk_data; log = s.log; ended = false }

abbrev pub fresh : Local
fresh = record { count = 0; chunk_data = []; log = []; ended = false }

module _ (json : Json) (codec : DialoutCodec) {F : Type 0} (show : F → Str)
    (config : UdpConfig) where
  -- One turn of the loop of a listener, by whether it has ended.
  abbrev pub handled : Bool → Str → Stats → Local → Event → Stats × Local
  handled true ip stats l e = (stats, l)
  handled false ip stats l stopped = (stats, record l { ended = true })
  handled false ip stats l (datagram bytes addr) =
      let s = on_datagram json codec show config ip (listener_of stats l) bytes addr in
      (s.stats, local_of s)
  handled false ip stats l (failed os_error would_block text) =
      let s = on_failed ip (listener_of stats l) os_error would_block text in (s.stats, local_of s)

  abbrev pub turn : Listeners → Side → Event → Listeners
  turn t side e = put side (handled (local side t).ended (ip_type side) t.stats (local side t) e) t

  unfoldable pub run_listeners : Listeners → List (Side × Event) → Listeners
  unfolding on_datagram on_failed
  run_listeners t [] = t
  run_listeners t ((side, e) ∷ schedule) = run_listeners (turn t side e) schedule

  unfoldable pub listen_text : Str
  listen_text =
      str "Server UDP 2-layer dial-out listen on: 0.0.0.0:"
      ++ fmt_nat config.port
      ++ str " (IPv4) and [::]:"
      ++ fmt_nat config.port
      ++ str " (IPv6)"

  -- The lines around the run of the listeners, and the result; it is none while one of them runs.
  abbrev pub joined : Listeners → List LogLine × Listeners × Option (Result F (Unit {0}))
  joined t =
      if t.v4.ended && t.v6.ended
      then (
        (info, listen_text) ∷ (info, str "Server UDP 2-layer dial-out exit") ∷ [],
        t,
        some (ok tt),
      )
      else ((info, listen_text) ∷ [], t, none)

  abbrev pub not_bound : Stats → F → List LogLine × Listeners × Option (Result F (Unit {0}))
  not_bound stats e = ([], record { v4 = fresh; v6 = fresh; stats = stats }, some (err (io e)))

  -- `start`, where both sockets are bound in turn, the one of IPv4 first.
  abbrev pub after_bind :
      Stats
      → List (Side × Event)
      → Outcome F (Unit {0})
      → Outcome F (Unit {0})
      → List LogLine × Listeners × Option (Result F (Unit {0}))
  after_bind stats schedule (err e) bound = not_bound stats e
  after_bind stats schedule (ok done) (err e) = not_bound stats e
  after_bind stats schedule (ok done) (ok done') =
      joined (run_listeners (record { v4 = fresh; v6 = fresh; stats = stats }) schedule)

  unfoldable pub start :
      (Side → Outcome F (Unit {0}))
      → Stats
      → List (Side × Event)
      → List LogLine × Listeners × Option (Result F (Unit {0}))
  unfolding run_listeners listen_text
  start bind stats schedule = after_bind stats schedule (bind ipv4) (bind ipv6)
