-- ===== src/Calls/ThreeLayer.antt =====
-- Calls of the 3-layer service of src-tauri/src/dialout/gpb_v3.rs among other calls.
use grpc_server_rust.Gpb.Counting.{on_message_counts}
use grpc_server_rust.Prelude.{
  ℕ, ◌<◌, ◌≡◌, refl, ap, ◌∙◌, arith, Option, none, some, List, [], ◌∷◌, Bytes, Str, length,
  get_elem?, if◌then◌else◌, Bool-cases, inl, inr,
}
use grpc_server_rust.Error.{Outcome}
use grpc_server_rust.Log.{LogLine}
use grpc_server_rust.Wire.{Json, DialoutV3Args, TelemetryCodec}
use grpc_server_rust.Stream.{Item, message, fault, messages}
use grpc_server_rust.Models.Stats.{Stats, incr_msg_count, incr}
use grpc_server_rust.Registry.{Registry}
use grpc_server_rust.Dynamic.{JsonMaker, Reflect}
use grpc_server_rust.Gpb
use grpc_server_rust.Gpb.Printing.{V3Config}
use grpc_server_rust.Gpb.{
  assemble_chunk, on_assembled, on_message, dialout_loop, opened, closed, dialout_v3,
}
use grpc_server_rust.Calls.{Counters, Call, run_calls, turns_of}
use grpc_server_rust.Calls.Loop.{
  CallLoop, is_message, stream_call, loop, finished, accepted, loop_among_calls,
}
use grpc_server_rust.Calls.Taken.{messages_taken}

-- What a call has of its own.
pub record Variables : Type 0 where
  pub count : ℕ
  pub chunk_data : Bytes
  pub log : List LogLine

-- The variables of a call, beside the counter of the 2-layer service, which it leaves alone.
abbrev pub Full : Type 0
Full = Gpb.Call × ℕ

abbrev pub variables_of : Full → Variables
variables_of (s, n) = record { count = s.count; chunk_data = s.chunk_data; log = s.log }

abbrev pub counters_of : Full → Counters
counters_of (s, n) = record { stats = s.stats; service_count = n }

abbrev pub with_counters : Variables → Counters → Full
with_counters l c = (
  record { count = l.count; chunk_data = l.chunk_data; stats = c.stats; log = l.log },
  c.service_count,
)

module _ (json : Json) {D K : Type 0} (make : JsonMaker json K) (reflect : Reflect D K)
    (codec : TelemetryCodec) (config : V3Config) (peer : Str) (registry : Outcome Str (Registry D))
    {S : Type 0} (show : S → Str) where
  abbrev pub Responses : Type 0
  Responses = Outcome S (List DialoutV3Args)

  abbrev pub to_end : Full → List (Item S DialoutV3Args) → Full × Responses
  to_end (s, n) items =
      let r =
        closed json make reflect codec config peer registry show
          (dialout_loop json make reflect codec config peer registry show s items) in
      ((r.0, n), r.1)

  abbrev pub on_item : Full → Item S DialoutV3Args → Full × Option Responses
  on_item (s, n) (message m) =
      ((on_message json make reflect codec config peer registry s m, n), none)
  on_item s (fault e) = let r = to_end s (fault e ∷ []) in (r.0, some r.1)

  -- What a message does to a call, by what is assembled of it.
  on_assembled-apart :
      (s t : Gpb.Call) (n k : ℕ) (m : DialoutV3Args) (done : Option Bytes × List LogLine)
      → variables_of (s, n) ≡ variables_of (t, k)
      → (variables_of (on_assembled json make reflect codec config peer registry s m done, n)
          ≡ variables_of (on_assembled json make reflect codec config peer registry t m done, k))
  unfolding on_assembled
  on_assembled-apart s t n k m (none, lines) h = ground (arith, h)
  on_assembled-apart s t n k m (some bytes, lines) h = ground (arith, h)

  on_message-apart :
      (s t : Gpb.Call) (n k : ℕ) (m : DialoutV3Args)
      → variables_of (s, n) ≡ variables_of (t, k)
      → variables_of (on_message json make reflect codec config peer registry s m, n)
        ≡ variables_of (on_message json make reflect codec config peer registry t m, k)
  unfolding on_message
  on_message-apart s t n k m h =
      let counted =
        λ (c : Gpb.Call). record c { count = incr c.count; stats = incr_msg_count c.stats } in
      elim (Bool-cases config.performance_mode) [
        | inl counting ↦ rw counting (ground (arith, h))
        | inr working ↦ rw working (
            on_assembled-apart (counted s) (counted t) n k m (assemble_chunk s.chunk_data m)
              (ground (arith, h))
            ∙ ap
                (λ b. variables_of (
                  on_assembled json make reflect codec config peer registry (counted t) m
                      (assemble_chunk b m),
                  k,
                ))
                (ap (λ l. l.chunk_data) h))
      ]

  pub on_item-apart :
      (s t : Full) (x : Item S DialoutV3Args)
      → variables_of s ≡ variables_of t
      → (variables_of (on_item s x).0 ≡ variables_of (on_item t x).0)
        × ((on_item s x).1 ≡ (on_item t x).1)
  unfolding dialout_loop
  on_item-apart (s, n) (t, k) (message m) h = (on_message-apart s t n k m h, refl)
  on_item-apart (s, n) (t, k) (fault e) h = (ground (arith, h), refl)

  pub to_end-apart :
      (s t : Full)
      → variables_of s ≡ variables_of t
      → (variables_of (to_end s []).0 ≡ variables_of (to_end t []).0)
        × ((to_end s []).1 ≡ (to_end t []).1)
  unfolding dialout_loop
  to_end-apart (s, n) (t, k) h = (ground (arith, h), refl)

  pub on_item_counts :
      (s : Full) (x : Item S DialoutV3Args)
      → (counters_of (on_item s x).0).stats
        ≡ (if is_message x then incr_msg_count (counters_of s).stats else (counters_of s).stats)
  unfolding incr_msg_count dialout_loop
  on_item_counts (s, n) (message m) =
      (on_message_counts json make reflect codec config peer registry show s m).1
  on_item_counts (s, n) (fault e) = refl

  pub to_end_counts : (s : Full) → (counters_of (to_end s []).0).stats ≡ (counters_of s).stats
  unfolding dialout_loop
  to_end_counts (s, n) = refl

  -- `dialout_v3` as a loop over its stream.
  abbrev pub dialout_v3_calls : CallLoop Full Variables S DialoutV3Args Responses
  dialout_v3_calls = record {
    variables_of = variables_of;
    counters_of = counters_of;
    with_counters = with_counters;
    on_item = on_item;
    on_end = λ s. to_end s [];
    variables_of-with_counters = λ l c. refl;
    counters_of-with_counters = λ l c. refl;
    on_item-apart = on_item-apart;
    on_end-apart = to_end-apart;
    on_item_counts = on_item_counts;
    on_end_counts = to_end_counts;
  }

  loop-to_end :
      (s : Full) (items : List (Item S DialoutV3Args))
      → loop dialout_v3_calls s items ≡ to_end s items
  unfolding loop dialout_loop
  loop-to_end s [] = refl
  loop-to_end (s, n) (message m ∷ items) =
      loop-to_end (on_message json make reflect codec config peer registry s m, n) items
  loop-to_end s (fault e ∷ items) = refl

  -- A 3-layer call among any calls at its address, which gets more turns than its stream has items: its
  -- log, its counter, its buffer and its answer are those of `dialout_v3` on that stream with no
  -- other call.
  pub dialout_v3_among_calls :
      (rs : List Call) (c : Counters) (schedule : List ℕ) (i : ℕ) (stats : Stats)
      (log : List LogLine) (n : ℕ) (items : List (Item S DialoutV3Args))
      → let start = opened json make reflect codec config peer registry show stats log in
        let done = dialout_v3 json make reflect codec config peer registry show stats log items in
        get_elem? rs i ≡ some (accepted dialout_v3_calls (start, n) items)
        → length items < turns_of schedule i
        → (rest : List (Item S DialoutV3Args)) × (get_elem? (run_calls rs c schedule).0 i
            ≡ some (
                stream_call dialout_v3_calls
                  (finished dialout_v3_calls ((done.0, n), done.1) rest)))
  unfolding dialout_v3
  dialout_v3_among_calls rs c schedule i stats log n items here enough =
      let start = opened json make reflect codec config peer registry show stats log in
      let (rest, done) =
        loop_among_calls dialout_v3_calls rs c schedule i (start, n) items here enough in
      (
        rest,
        done
            ∙ ap (λ r. some (stream_call dialout_v3_calls (finished dialout_v3_calls r rest)))
                (loop-to_end (start, n) items),
      )

  -- A 3-layer call takes the messages before the first fault.
  pub messages_taken-dialout_v3_calls :
      (s : Full) (items : List (Item S DialoutV3Args))
      → messages_taken dialout_v3_calls s items ≡ length (messages items)
  unfolding messages_taken dialout_loop
  messages_taken-dialout_v3_calls s [] = refl
  messages_taken-dialout_v3_calls (s, n) (message m ∷ items) = omega (
    arith,
    messages_taken-dialout_v3_calls (on_message json make reflect codec config peer registry s m, n)
        items,
  )
  messages_taken-dialout_v3_calls s (fault e ∷ items) = refl
