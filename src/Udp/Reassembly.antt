-- ===== src/Udp/Reassembly.antt =====
-- How the fragments that reach one listener are joined.
use grpc_server_rust.Prelude.{
  ℕ, zero, suc, ◌≡◌, ◌∙◌, arith, true, false, List, [], ◌∷◌, ◌++◌, append-nil, Bytes, Str, All,
  concat, map, length, list_laws,
}
use grpc_server_rust.Log.{LogLine}
use grpc_server_rust.Wire.{Json, DialoutCodec}
use grpc_server_rust.Models.Stats.{incr}
use grpc_server_rust.UdpHeader.Fields.{standard_header}
use grpc_server_rust.Udp.Printing.{UdpConfig, head_line, output}
use grpc_server_rust.Udp.{Event, datagram, Listener, on_datagram, run_udp_listener}
use grpc_server_rust.Udp.Packet.{IsFragment, process-fragment}

-- A datagram with its sender and the part of the message that it carries.
pub record Fragment : Type 0 where
  pub bytes : Bytes
  pub addr : Str
  pub part : Bytes

abbrev pub events_of : List Fragment → List Event
events_of fs = map (λ f. datagram f.bytes f.addr) fs

abbrev pub parts_of : List Fragment → Bytes
parts_of fs = concat (map (λ f. f.part) fs)

abbrev pub heads_of : List Fragment → List LogLine
heads_of fs = map (λ f. head_line f.bytes (standard_header f.bytes)) fs

-- The counter after so many datagrams.
abbrev pub count_on : ℕ → ℕ → ℕ
count_on zero c = c
count_on (suc n) c = count_on n (incr c)

module _ (json : Json) (codec : DialoutCodec) {F : Type 0} (show : F → Str) (ip_type : Str)
    (config : UdpConfig) (parsing : config.performance_mode ≡ false) where
  abbrev listen : Listener → List Event → Listener
  listen s events = run_udp_listener json codec show config ip_type s events

  abbrev receive : Listener → Fragment → Listener
  receive s f = on_datagram json codec show config ip_type s f.bytes f.addr

  receive_part :
      (s : Listener) (f : Fragment)
      → IsFragment f.bytes f.part false
      → ((receive s f).chunk_data ≡ s.chunk_data ++ f.part)
        × ((receive s f).log ≡ s.log ++ head_line f.bytes (standard_header f.bytes) ∷ [])
        × ((receive s f).count ≡ incr s.count)
  unfolding on_datagram
  receive_part s f frag = ground (
    arith,
    parsing,
    process-fragment json codec show ip_type (incr s.count) f.addr config s.chunk_data f.bytes
        f.part false frag,
  )

  receive_last :
      (s : Listener) (f : Fragment)
      → IsFragment f.bytes f.part true
      → ((receive s f).chunk_data ≡ [])
        × ((receive s f).log
            ≡ s.log
              ++ head_line f.bytes (standard_header f.bytes)
                ∷ output json codec (s.chunk_data ++ f.part) ip_type (incr s.count) f.addr config)
  unfolding on_datagram
  receive_last s f frag = ground (
    arith,
    parsing,
    process-fragment json codec show ip_type (incr s.count) f.addr config s.chunk_data f.bytes
        f.part true frag,
  )

  -- A listener that is not in performance mode and receives any number of fragments, none marked
  -- last, and then one marked last, whoever sent each: it logs the header of each, and then the
  -- output of what was in the buffer with all parts joined in the order of arrival, under the
  -- address of the last sender; and the buffer is empty.
  pub fragments_joined :
      (fs : List Fragment) (s : Listener) (f : Fragment)
      → All (λ g. IsFragment g.bytes g.part false) fs
      → IsFragment f.bytes f.part true
      → ((listen s (events_of (fs ++ f ∷ []))).chunk_data ≡ [])
        × ((listen s (events_of (fs ++ f ∷ []))).log
            ≡ s.log
              ++ (heads_of (fs ++ f ∷ [])
                  ++ output json codec
                      (s.chunk_data ++ parts_of (fs ++ f ∷ []))
                      ip_type
                      (count_on (suc (length fs)) s.count)
                      f.addr
                      config))
  unfolding run_udp_listener
  fragments_joined [] s f hs h = let (a, b) = receive_last s f h in (a, rw append-nil b)
  fragments_joined (g ∷ fs) s f (hg, hs) h =
      let (a, b, c) = receive_part s g hg in
      let ih = fragments_joined fs (receive s g) f hs h in (ih.0, ih.1 ∙ simp (a, b, c, list_laws))
