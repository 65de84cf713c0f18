-- ===== src/Udp.antt =====
-- src-tauri/src/dialout/udp.rs: the UDP server. One listener is a run over the events of its socket
-- and of the stop signal, in the order in which `select!` takes them. The address of a datagram is
-- the text of its `ip()`.
pub mod Printing
pub mod Hex
pub mod Packet
pub mod Reassembly
pub mod Counting
pub mod Server
pub mod Apart
pub mod Ending
pub mod Signal
pub mod Heard
pub mod Streams
use grpc_server_rust.Prelude.{
  ℕ, ◌+◌, ◌/◌, ◌%◌, Bool, true, false, not, ◌==◌, leb, Option, none, some, List, [], ◌∷◌, ◌++◌,
  Bytes, Str, str, fmt_nat, length, drop, get_or, unwrap_or, if◌then◌else◌,
}
use grpc_server_rust.Error.{Outcome, ok, err, AppError, display}
use grpc_server_rust.Log.{Level, info, warn, error, LogLine, newline, quote}
use grpc_server_rust.Wire.{Json, DialoutCodec, DialoutMsg}
use grpc_server_rust.Models.{UdpHeader, UdpHeaderOption}
use grpc_server_rust.Models.Stats.{Stats, incr, incr_msg_count}
use grpc_server_rust.UdpHeader.{parse_udp_header, header_bytes, extract_payload}
use grpc_server_rust.Udp.Printing.{UdpConfig, head_line, output}

abbrev pub udp_max_size : ℕ
udp_max_size = 65536

-- What wakes the listener. A failed receive has the error's OS number, whether its kind is
-- `WouldBlock`, and its text.
pub data Event : Type 0 where
  stopped : Event
  datagram : Bytes → Str → Event
  failed : Option ℕ → Bool → Str → Event

-- The variables of `run_udp_listener`, with the global counters and what was logged.
pub record Listener : Type 0 where
  pub count : ℕ
  pub chunk_data : Bytes
  pub stats : Stats
  pub log : List LogLine

abbrev pub start_listener : Stats → Listener
start_listener stats = record { count = 0; chunk_data = []; stats = stats; log = [] }

-- `e.raw_os_error() == Some(10040)`
abbrev pub is_message_too_long : Option ℕ → Bool
is_message_too_long none = false
is_message_too_long (some n) = n == 10040

unfoldable pub failed_lines : Str → Option ℕ → Bool → Str → List LogLine
failed_lines ip_type os_error would_block text =
    if is_message_too_long os_error
    then ((
      warn,
      str "UDP datagram too large for buffer ("
          ++ fmt_nat udp_max_size
          ++ str "), truncated ("
          ++ ip_type
          ++ str "): "
          ++ text,
    )
        ∷ [])
    else if not would_block
    then ((error, str "UDP recv error (" ++ ip_type ++ str "): " ++ text) ∷ [])
    else []

unfoldable pub on_failed : Str → Listener → Option ℕ → Bool → Str → Listener
unfolding failed_lines
on_failed ip_type s os_error would_block text = record s {
  log = s.log ++ failed_lines ip_type os_error would_block text;
}

unfoldable pub performance_line : ℕ → Str → LogLine
performance_line count ip_type =
    (info, str "gRPC UDP server count: " ++ fmt_nat count ++ str " (" ++ ip_type ++ str ")")

module _ (json : Json) (codec : DialoutCodec) where
  module _ {F : Type 0} (show : F → Str) where
    -- The arms of the match on the parsed header: the lines that a datagram makes, and the
    -- reassembly buffer after it.
    unfoldable pub on_parsed :
        Outcome (AppError F) UdpHeader
        → Bytes
        → Str
        → ℕ
        → Str
        → UdpConfig
        → Bytes
        → List LogLine × Bytes
    on_parsed (ok header) bytes ip_type count addr config chunk_data =
        let head = head_line bytes header in
        let payload = extract_payload bytes header.header_length in
        let whole = chunk_data ++ payload in
        elim header.option [
          | some opt ↦
              if not opt.last
              then (head ∷ [], whole)
              else (head ∷ output json codec whole ip_type count addr config, [])
          | none ↦ (head ∷ output json codec payload ip_type count addr config, chunk_data)
        ]
    on_parsed (err e) bytes ip_type count addr config chunk_data =
        let warning : LogLine = (warn, str "Failed to parse UDP header: " ++ display show e) in
        if leb (length bytes) 12 then (warning ∷ [], chunk_data) else (
          warning
              ∷ (info, str "Defaulting to first 12 bytes as UDP header")
              ∷ output json codec (drop 12 bytes) ip_type count addr config,
          chunk_data,
        )

    unfoldable pub process_udp_packet :
        Bytes → Str → ℕ → Str → UdpConfig → Bytes → List LogLine × Bytes
    unfolding on_parsed
    process_udp_packet bytes ip_type count addr config chunk_data =
        on_parsed (parse_udp_header bytes) bytes ip_type count addr config chunk_data

    -- One received datagram.
    unfoldable pub on_datagram : UdpConfig → Str → Listener → Bytes → Str → Listener
    unfolding incr_msg_count
    on_datagram config ip_type s bytes addr =
        let count = incr s.count in
        let done = process_udp_packet bytes ip_type count addr config s.chunk_data in
        if config.performance_mode
        then (record s {
          count = count;
          stats = incr_msg_count s.stats;
          log = s.log ++ (if count % 1000 == 0 then performance_line count ip_type ∷ [] else []);
        })
        else (record {
          count = count;
          chunk_data = done.1;
          stats = incr_msg_count s.stats;
          log = s.log ++ done.0;
        })

    -- The loop: it ends at the stop signal, or where the events end.
    unfoldable pub run_udp_listener : UdpConfig → Str → Listener → List Event → Listener
    unfolding on_datagram on_failed
    run_udp_listener config ip_type s [] = s
    run_udp_listener config ip_type s (stopped ∷ events) = s
    run_udp_listener config ip_type s (datagram bytes addr ∷ events) =
        run_udp_listener config ip_type (on_datagram config ip_type s bytes addr) events
    run_udp_listener config ip_type s (failed os_error would_block text ∷ events) =
        run_udp_listener config ip_type (on_failed ip_type s os_error would_block text) events
