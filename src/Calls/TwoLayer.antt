-- ===== src/Calls/TwoLayer.antt =====
-- Calls of the 2-layer service of src-tauri/src/dialout/normal.rs among other calls.
use grpc_server_rust.Prelude.{
  ℕ, ◌<◌, ◌≡◌, refl, arith, Option, none, some, List, [], ◌∷◌, Str, length, get_elem?,
  if◌then◌else◌, ap, ◌∙◌,
}
use grpc_server_rust.Error.{Outcome}
use grpc_server_rust.Log.{LogLine}
use grpc_server_rust.Wire.{Json, DialoutCodec, DialoutMsg}
use grpc_server_rust.Stream.{Item, message, fault, messages}
use grpc_server_rust.Models.Stats.{incr_msg_count}
use grpc_server_rust.Chunk.{ChunkRecords}
use grpc_server_rust.Normal
use grpc_server_rust.Normal.{DialoutConfig, on_message, dialout_loop, opened, closed, dialout}
use grpc_server_rust.Calls.{Counters, Call, run_calls, turns_of}
use grpc_server_rust.Calls.Loop.{
  CallLoop, stream_call, loop, finished, accepted, loop_among_calls, is_message,
}
use grpc_server_rust.Calls.Taken.{messages_taken}

-- What a call has of its own.
pub record Variables : Type 0 where
  pub client_count : ℕ
  pub chunk_records : ChunkRecords
  pub log : List LogLine

abbrev pub variables_of : Normal.Call → Variables
variables_of s = record {
  client_count = s.client_count;
  chunk_records = s.chunk_records;
  log = s.log;
}

abbrev pub counters_of : Normal.Call → Counters
counters_of s = record { stats = s.stats; service_count = s.service_count }

abbrev pub with_counters : Variables → Counters → Normal.Call
with_counters l c = record {
  service_count = c.service_count;
  client_count = l.client_count;
  chunk_records = l.chunk_records;
  stats = c.stats;
  log = l.log;
}

module _ (json : Json) (codec : DialoutCodec) (config : DialoutConfig) (peer : Str) {S : Type 0}
    (show : S → Str) where
  abbrev pub answered : Normal.Call × Outcome S Str → Normal.Call × Option (Outcome S Str)
  answered (s, a) = (s, some a)

  abbrev pub to_end : Normal.Call → List (Item S DialoutMsg) → Normal.Call × Outcome S Str
  to_end s items =
      closed json codec config peer show (dialout_loop json codec config peer show s items)

  abbrev pub on_item : Normal.Call → Item S DialoutMsg → Normal.Call × Option (Outcome S Str)
  on_item s (message m) = (on_message json codec config peer s m, none)
  on_item s (fault e) = answered (to_end s (fault e ∷ []))

  pub on_item-apart :
      (s t : Normal.Call) (x : Item S DialoutMsg)
      → variables_of s ≡ variables_of t
      → (variables_of (on_item s x).0 ≡ variables_of (on_item t x).0)
        × ((on_item s x).1 ≡ (on_item t x).1)
  unfolding on_message dialout_loop
  on_item-apart s t (message m) h = (ground (arith, h), refl)
  on_item-apart s t (fault e) h = (ground (arith, h), refl)

  pub to_end-apart :
      (s t : Normal.Call)
      → variables_of s ≡ variables_of t
      → (variables_of (to_end s []).0 ≡ variables_of (to_end t []).0)
        × ((to_end s []).1 ≡ (to_end t []).1)
  unfolding dialout_loop
  to_end-apart s t h = (ground (arith, h), refl)

  pub on_item_counts :
      (s : Normal.Call) (x : Item S DialoutMsg)
      → (counters_of (on_item s x).0).stats
        ≡ (if is_message x then incr_msg_count s.stats else s.stats)
  unfolding on_message incr_msg_count dialout_loop
  on_item_counts s (message m) = ground arith
  on_item_counts s (fault e) = refl

  pub to_end_counts : (s : Normal.Call) → (counters_of (to_end s []).0).stats ≡ s.stats
  unfolding dialout_loop
  to_end_counts s = refl

  -- `dialout` as a loop over its stream.
  abbrev pub dialout_calls : CallLoop Normal.Call Variables S DialoutMsg (Outcome S Str)
  dialout_calls = record {
    variables_of = variables_of;
    counters_of = counters_of;
    with_counters = with_counters;
    on_item = on_item;
    on_end = λ s. to_end s [];
    variables_of-with_counters = λ l c. refl;
    counters_of-with_counters = λ l c. refl;
    on_item-apart = on_item-apart;
    on_end-apart = to_end-apart;
    on_item_counts = on_item_counts;
    on_end_counts = to_end_counts;
  }

  loop-to_end :
      (s : Normal.Call) (items : List (Item S DialoutMsg))
      → loop dialout_calls s items ≡ to_end s items
  unfolding loop dialout_loop
  loop-to_end s [] = refl
  loop-to_end s (message m ∷ items) = loop-to_end (on_message json codec config peer s m) items
  loop-to_end s (fault e ∷ items) = refl

  -- A 2-layer call among any calls at its address, which gets more turns than its stream has items: its
  -- log, its counter, its fragments and its answer are those of `dialout` on that stream with no
  -- other call, whatever the other calls are, however the turns interleave and whatever the shared
  -- counters hold.
  pub dialout_among_calls :
      (rs : List Call) (c : Counters) (schedule : List ℕ) (i : ℕ) (s : Normal.Call)
      (items : List (Item S DialoutMsg))
      → get_elem? rs i ≡ some (accepted dialout_calls (opened json codec config peer show s) items)
      → length items < turns_of schedule i
      → (rest : List (Item S DialoutMsg)) × (get_elem? (run_calls rs c schedule).0 i
          ≡ some (
              stream_call dialout_calls
                (finished dialout_calls (dialout json codec config peer show s items) rest)))
  unfolding dialout
  dialout_among_calls rs c schedule i s items here enough =
      let start = opened json codec config peer show s in
      let (rest, done) = loop_among_calls dialout_calls rs c schedule i start items here enough in
      (
        rest,
        done
            ∙ ap (λ r. some (stream_call dialout_calls (finished dialout_calls r rest)))
                (loop-to_end start items),
      )

  -- A 2-layer call takes the messages before the first fault.
  pub messages_taken-dialout_calls :
      (s : Normal.Call) (items : List (Item S DialoutMsg))
      → messages_taken dialout_calls s items ≡ length (messages items)
  unfolding messages_taken dialout_loop
  messages_taken-dialout_calls s [] = refl
  messages_taken-dialout_calls s (message m ∷ items) =
      omega (arith, messages_taken-dialout_calls (on_message json codec config peer s m) items)
  messages_taken-dialout_calls s (fault e ∷ items) = refl
