-- ===== src/Udp/Streams.antt =====
-- A fragmented message that reaches one socket of the UDP server while the other is busy.
use grpc_server_rust.Prelude.{suc, ◌≡◌, ap, ◌∙◌, true, false, List, [], ◌∷◌, ◌++◌, Str, All, length}
use grpc_server_rust.Wire.{Json, DialoutCodec}
use grpc_server_rust.Udp.Printing.{UdpConfig, output}
use grpc_server_rust.Udp.{Event, Listener}
use grpc_server_rust.Udp.Packet.{IsFragment}
use grpc_server_rust.Udp.Reassembly
use grpc_server_rust.Udp.Reassembly.{Fragment, heads_of, parts_of, count_on, fragments_joined}
use grpc_server_rust.Udp.Server.{Side, ip_type, Listeners, local, listener_of, run_listeners}
use grpc_server_rust.Udp.Apart.{events_of, alone, listener_apart}

-- Fragments that reach one socket, the last one marked as such, in a mode that parses, over any
-- schedule that mixes them with whatever happens at the other socket: that listener logs a line on
-- each header, in the order of arrival and whoever sent the fragments, then what is put out for all
-- their parts joined, behind what its buffer held, under the count of the last fragment and with the
-- address of its sender; and its buffer is empty.
pub listeners_join_fragments :
    (json : Json) (codec : DialoutCodec) {F : Type 0} (show : F → Str) (config : UdpConfig)
    (side : Side) (t : Listeners) (schedule : List (Side × Event)) (fs : List Fragment)
    (f : Fragment)
    → config.performance_mode ≡ false
    → (local side t).ended ≡ false
    → events_of side schedule ≡ Reassembly.events_of (fs ++ f ∷ [])
    → All (λ g. IsFragment g.bytes g.part false) fs
    → IsFragment f.bytes f.part true
    → let l = local side (run_listeners json codec show config t schedule) in
      (l.chunk_data ≡ [])
      × (l.log
          ≡ (local side t).log
            ++ (heads_of (fs ++ f ∷ [])
                ++ output json codec
                    ((local side t).chunk_data ++ parts_of (fs ++ f ∷ []))
                    (ip_type side)
                    (count_on (suc (length fs)) (local side t).count)
                    f.addr
                    config))
listeners_join_fragments json codec show config side t schedule fs f parsing on events parts last =
    let start : Listener = listener_of t.stats (local side t) in
    let (same_count, same_data, same_log) =
      listener_apart json codec show config side schedule t t.stats on in
    let (emptied, lines) =
      fragments_joined json codec show (ip_type side) config parsing fs start f parts last in
    let arrive = ap (λ es. alone json codec show config side start es) events in
    (same_data ∙ ap (λ s. s.chunk_data) arrive ∙ emptied, same_log ∙ ap (λ s. s.log) arrive ∙ lines)
