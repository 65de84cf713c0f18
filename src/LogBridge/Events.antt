-- ===== src/LogBridge/Events.antt =====
-- One event (`on_event`) and one drain of the channel, each as a whole, as they are where no other
-- thread comes between. The texts in the channel are kept here.
use grpc_server_rust.Prelude.{
  ℕ, ◌+◌, ◌-◌, ◌%◌, ◌^◌, false, ltb, List, [], ◌∷◌, ◌++◌, Str, length, if◌then◌else◌,
}
use grpc_server_rust.LogBridge.{event_text, max_channel_backlog, Bridge}

pub record Channel : Type 0 where
  pub queue : List Str
  pub counter : ℕ

abbrev pub empty_channel : Channel
empty_channel = record { queue = []; counter = 0 }

-- The writer of the layer is never set, so that only the channel gets the text.
unfoldable pub on_event : Str → Str → Channel → Channel
unfolding event_text
on_event level msg ch =
    if ltb ch.counter max_channel_backlog
    then (record {
      queue = ch.queue ++ event_text level msg ∷ [];
      counter = (ch.counter + 1) % 2 ^ 64;
    })
    else ch

-- The messages that a poll takes, and the channel after it.
abbrev pub taken : List Str → Channel → Channel
taken [] ch = ch
taken (m ∷ ms) ch = record {
  queue = [];
  counter = (ch.counter + (2 ^ 64 - length (m ∷ ms) % 2 ^ 64)) % 2 ^ 64;
}

unfoldable pub drain : Channel → List Str × Channel
drain ch = (ch.queue, taken ch.queue ch)

-- What happens to the channel.
pub data Op : Type 0 where
  event : Str → Str → Op
  poll : Op

unfoldable pub run : Channel → List Op → Channel
unfolding on_event drain
run ch [] = ch
run ch (event level msg ∷ ops) = run (on_event level msg ch) ops
run ch (poll ∷ ops) = run (drain ch).1 ops

-- The channel as the step relation sees it between two operations.
abbrev pub bridge_of : Channel → Bridge
bridge_of ch = record {
  counter = ch.counter;
  queue = length ch.queue;
  checked = 0;
  sent = 0;
  received = 0;
  drained = false;
}
