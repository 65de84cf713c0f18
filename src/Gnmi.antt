-- ===== src/Gnmi.antt =====
-- src-tauri/src/dialout/gnmi.rs: the gNMI service. One call of `publish` is a run over the items of
-- its stream. `R` stands for `SubscribeResponse` and `P` for `Path`, of the code that prost generates
-- from proto/gnmi.proto.
pub mod Printing
pub mod Backlog
use grpc_server_rust.Prelude.{
  ℕ, ◌+◌, ◌%◌, Bool, ◌==◌, ltb, Option, none, some, List, [], ◌∷◌, ◌++◌, Bytes, Str, str, str_eq,
  fmt_nat, unwrap_or, if◌then◌else◌,
}
use grpc_server_rust.Prelude.Int.{ℤ, fmt_int}
use grpc_server_rust.Prelude.Utf8.{is_utf8}
use grpc_server_rust.Error.{ok, err}
use grpc_server_rust.Log.{info, error, LogLine, newline, quote}
use grpc_server_rust.Wire.{Json}
use grpc_server_rust.Stream.{Item, message, fault}
use grpc_server_rust.Models.Stats.{Stats, incr, incr_msg_count, incr_client_count}
use grpc_server_rust.Gnmi.Printing.{GnmiConfig, GnmiCodec, print_gnmi_response, rule}

pub record GnmiDialoutService : Type 0 where
  pub config : GnmiConfig

abbrev pub new_gnmi_dialout_service : GnmiConfig → GnmiDialoutService
new_gnmi_dialout_service config = record { config = config }

-- The variables of `publish`, with the responses in its channel, the global counters and what was
-- logged.
pub record Call : Type 0 where
  pub count : ℕ
  pub queued : ℕ
  pub stats : Stats
  pub log : List LogLine

-- What a call comes to: a stream of so many responses, the status of a fault, or a `send` that waits
-- for a place in the full channel. Its receiver is handed out only after the loop, so that nothing
-- makes room.
pub data Answer (S : Type 0) : Type 0 where
  responses : ℕ → Answer S
  status : S → Answer S
  waits : Answer S

abbrev pub channel_size : ℕ
channel_size = 64

unfoldable pub performance_line : ℕ → Str → LogLine
performance_line count peer =
    (info, str "gRPC gNMI server count: " ++ fmt_nat count ++ str " source addr: " ++ peer)

module _ (json : Json) {R P : Type 0} (codec : GnmiCodec R P) (config : GnmiConfig)
    (peer : Str) where
  -- What the body of the loop logs of a message.
  unfoldable pub message_lines : R → ℕ → List LogLine
  unfolding print_gnmi_response performance_line rule
  message_lines r count =
      if config.performance_mode
      then (if count % 1000 == 0 then performance_line count peer ∷ [] else [])
      else if config.orignal
      then (
        info,
        str "original response:" ++ newline ++ codec.debug r ++ newline ++ rule count peer,
      )
        ∷ []
      else print_gnmi_response json codec config peer r count ∷ []

  -- The body of the loop up to its `send`.
  unfoldable pub on_message : Call → R → Call
  unfolding message_lines incr_msg_count
  on_message s r =
      let count = incr s.count in
      record s {
        count = count;
        stats = incr_msg_count s.stats;
        log = s.log ++ message_lines r count;
      }

  module _ {S : Type 0} (show : S → Str) where
    -- The `while let` loop. All three ways through its body end in one `send`.
    unfoldable pub publish_loop : Call → List (Item S R) → Call × Answer S
    unfolding on_message
    publish_loop s [] = (s, responses s.queued)
    publish_loop s (message r ∷ items) =
        let s' = on_message s r in
        let rest = publish_loop (record s' { queued = s.queued + 1 }) items in
        if ltb s.queued channel_size then rest else (s', waits)
    publish_loop s (fault e ∷ items) = (
      record s {
        log = s.log ++ (error, str "gNMI stream error from " ++ peer ++ str ": " ++ show e) ∷ [];
      },
      status e,
    )

    abbrev pub opened : Stats → List LogLine → Call
    opened stats log = record {
      count = 0;
      queued = 0;
      stats = incr_client_count stats;
      log = log ++ (info, str "A client connected. (gNMI) source addr: " ++ peer) ∷ [];
    }

    abbrev pub closed : Call × Answer S → Call × Answer S
    closed (s, responses n) = (
      record s {
        log = s.log ++ (info, str "A client disconnected. (gNMI) source addr: " ++ peer) ∷ [];
      },
      responses n,
    )
    closed (s, status e) = (s, status e)
    closed (s, waits) = (s, waits)

    unfoldable pub publish : Stats → List LogLine → List (Item S R) → Call × Answer S
    unfolding publish_loop incr_client_count
    publish stats log items = closed (publish_loop (opened stats log) items)
