-- ===== src/Udp/Counting.antt =====
-- How many datagrams a listener counts, and what performance mode writes.
use grpc_server_rust.Prelude.{
  ℕ, suc, ◌+◌, ◌/◌, ◌%◌, ◌^◌, ◌<◌, ◌≡◌, refl, ◌∙◌, arith, true, List, [], ◌∷◌, map, length,
  length-append, Bytes, Str,
}
use grpc_server_rust.Wire.{Json, DialoutCodec}
use grpc_server_rust.Models.Stats.{incr, incr_msg_count}
use grpc_server_rust.Udp.Printing.{UdpConfig}
use grpc_server_rust.Udp.{
  Event, stopped, datagram, failed, Listener, on_datagram, on_failed, performance_line,
  run_udp_listener,
}

-- The datagrams before the stop signal.
abbrev pub received : List Event → ℕ
received [] = 0
received (stopped ∷ es) = 0
received (datagram bytes addr ∷ es) = suc (received es)
received (failed o w t ∷ es) = received es

abbrev pub datagrams : List (Bytes × Str) → List Event
datagrams es = map (λ e. datagram e.0 e.1) es

module _ (json : Json) (codec : DialoutCodec) {F : Type 0} (show : F → Str) (ip_type : Str)
    (config : UdpConfig) where
  abbrev listen : Listener → List Event → Listener
  listen s events = run_udp_listener json codec show config ip_type s events

  pub on_datagram_counts :
      (s : Listener) (bytes : Bytes) (addr : Str)
      → ((on_datagram json codec show config ip_type s bytes addr).count ≡ incr s.count)
        × ((on_datagram json codec show config ip_type s bytes addr).stats
            ≡ record s.stats { msg_count = incr s.stats.msg_count })
  unfolding on_datagram incr_msg_count
  on_datagram_counts s bytes addr = ground arith

  performance_step :
      (s : Listener) (bytes : Bytes) (addr : Str)
      → config.performance_mode ≡ true
      → s.count + 1 < 2 ^ 64
      → let s' = on_datagram json codec show config ip_type s bytes addr in
        (length s'.log + s.count / 1000 ≡ length s.log + (s.count + 1) / 1000)
        × (s'.chunk_data ≡ s.chunk_data)
        × (s'.count ≡ s.count + 1)
  unfolding on_datagram
  performance_step s bytes addr h fits = ground (
    arith,
    h,
    length-append s.log [],
    length-append s.log (performance_line (incr s.count) ip_type ∷ []),
  )

  -- In every mode, the listener's counter and the global message counter go up by the number of
  -- datagrams received before the stop signal, modulo 2 ^ 64, the global client counter stays, and
  -- failed receives and events behind the stop signal count for nothing.
  pub run_udp_listener_counts :
      (s : Listener) (events : List Event)
      → ((listen s events).count % 2 ^ 64 ≡ (s.count + received events) % 2 ^ 64)
        × ((listen s events).stats.msg_count % 2 ^ 64
            ≡ (s.stats.msg_count + received events) % 2 ^ 64)
        × ((listen s events).stats.client_count ≡ s.stats.client_count)
  unfolding run_udp_listener
  run_udp_listener_counts s [] = omega arith
  run_udp_listener_counts s (stopped ∷ es) = omega arith
  run_udp_listener_counts s (datagram bytes addr ∷ es) =
      let s' = on_datagram json codec show config ip_type s bytes addr in
      ground (arith, on_datagram_counts s bytes addr, run_udp_listener_counts s' es)
  run_udp_listener_counts s (failed o w t ∷ es) =
      let s' = on_failed ip_type s o w t in
      let ih = run_udp_listener_counts s' es in unfold on_failed in ih

  -- In performance mode, as long as the counter stays below 2 ^ 64, a listener that receives
  -- datagrams writes one line for each multiple of 1000 that its counter passes, whatever the
  -- datagrams hold, and leaves the reassembly buffer alone.
  pub performance_mode_lines :
      (s : Listener) (events : List (Bytes × Str))
      → config.performance_mode ≡ true
      → s.count + length events < 2 ^ 64
      → (length (listen s (datagrams events)).log + s.count / 1000
          ≡ length s.log + (s.count + length events) / 1000)
        × ((listen s (datagrams events)).chunk_data ≡ s.chunk_data)
  unfolding run_udp_listener
  performance_mode_lines s [] h fits = (omega arith, refl)
  performance_mode_lines s ((bytes, addr) ∷ events) h fits =
      let s' = on_datagram json codec show config ip_type s bytes addr in
      let (lines, same, up) = performance_step s bytes addr h (omega arith) in
      let (more, still) = performance_mode_lines s' events h (omega (arith, up)) in
      (omega (arith, lines, more, up), still ∙ same)
