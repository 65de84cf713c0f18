-- ===== src/Tests/BridgeRuns.antt =====
-- The log bridge of src-tauri/src/gui.rs at work.
use grpc_server_rust.Log.{quote}
use grpc_server_rust.LogBridge.Visitor.{Field, string, text_of_event, event_with, text_of_event_lem}
use grpc_server_rust.Prelude.{
  ◌+◌, ◌≤◌, ◌<◌, ◌≡◌, ◌⊎◌, refl, arith, true, false, none, some, [], ◌∷◌, Str, str, ltb, str_eq,
  List, length, Option,
}
use grpc_server_rust.LogBridge.{
  Bridge, load, send, receive, see_empty, subtract, Reach, here, next, max_channel_backlog, Message,
  Writer, Limits, poll, event_text,
}
use grpc_server_rust.LogBridge.Events
use grpc_server_rust.LogBridge.Events.{Channel, empty_channel, event, Op, run, bridge_of}
use grpc_server_rust.LogBridge.Sequential.{run-Reach}
use grpc_server_rust.LogBridge.Backlog.{backlog_counter}

-- A message is received and subtracted before its sender has counted it.
abbrev late : Bridge
late = record {
  counter = 18446744073709551615;
  queue = 0;
  checked = 0;
  sent = 1;
  received = 0;
  drained = false;
}

late-Reach : Reach 4 late
late-Reach =
    next
      (next
        (next (next (next here (load refl (omega arith))) (send (omega arith)))
          (receive (omega arith) refl))
        (see_empty refl refl))
      (subtract refl)

backlog_counter_example :
    (late.queue ≤ 2000 + 4)
    × ((late.counter + late.sent ≡ late.queue + late.received)
        ⊎ ((late.queue + late.received < late.sent)
            × (ltb late.counter max_channel_backlog ≡ false)))
backlog_counter_example = backlog_counter (omega arith) late-Reach

abbrev limits : Limits
limits = record { max_bytes = 20; max_num = 2; dir = str "logs"; prefix = str "udp" }

abbrev message : Str → Message
message text = record {
  text = text;
  line_time = str "12:00:00";
  file_time = str "120000";
  entries = [];
  can_open = true;
  wrote = 100;
}

abbrev open_writer : Writer
open_writer = record { file = some (str "logs/udp_0.log"); size = 15; effects = [] }

abbrev closed_writer : Writer
closed_writer = record { file = none; size = 7; effects = [] }

abbrev ops : List Op
ops =
    event (str "INFO") (str "one")
    ∷ event (str "WARN") []
    ∷ Events.poll
    ∷ event (str "INFO") (str "two")
    ∷ []

run-Reach_example :
    Reach 1 (bridge_of (run empty_channel ops))
    × ((run empty_channel ops).counter ≡ length (run empty_channel ops).queue)
    × (length (run empty_channel ops).queue ≤ 2000)
run-Reach_example = run-Reach ops

run-ops : run empty_channel ops ≡ record { queue = str "INFO: two" ∷ []; counter = 1 }
unfolding run event_text str_eq
run-ops = refl

abbrev target_field : List Field
target_field = string (str "target") (str "udp") ∷ []

abbrev sent_text : Str → Option Str
sent_text debug_str = text_of_event (str "INFO") (event_with target_field debug_str [])

text_of_event_lem_example :
    (sent_text (str "ready") ≡ some (str "INFO: ready"))
    × (sent_text (quote (str "ready")) ≡ some (str "INFO: ready"))
    × (sent_text (34 ∷ []) ≡ none)
unfolding str_eq event_text
text_of_event_lem_example =
    text_of_event_lem target_field [] (str "INFO") (str "ready") (str "ready") (refl, tt) tt refl
