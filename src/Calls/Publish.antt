-- ===== src/Calls/Publish.antt =====
-- Calls of the gNMI service of src-tauri/src/dialout/gnmi.rs among other calls. A call whose channel is full
-- waits and takes no more messages.
use grpc_server_rust.Prelude.{
  ℕ, ◌+◌, ◌<◌, ◌≡◌, refl, ap, ◌∙◌, arith, Bool, true, false, Option, none, some, List, [], ◌∷◌, Str,
  length, ltb, get_elem?, if◌then◌else◌, Bool-cases, inl, inr, min, ◌≤◌, ◌-◌, ltb→lt,
}
use grpc_server_rust.Log.{LogLine}
use grpc_server_rust.Wire.{Json}
use grpc_server_rust.Stream.{Item, message, fault, messages}
use grpc_server_rust.Models.Stats.{Stats, incr_msg_count}
use grpc_server_rust.Gnmi
use grpc_server_rust.Gnmi.Printing.{GnmiConfig, GnmiCodec}
use grpc_server_rust.Gnmi.{
  Answer, waits, channel_size, on_message, publish_loop, opened, closed, publish,
}
use grpc_server_rust.Calls.{Counters, Call, run_calls, turns_of}
use grpc_server_rust.Calls.Loop.{
  CallLoop, is_message, stream_call, loop, finished, accepted, loop_among_calls,
}
use grpc_server_rust.Calls.Taken.{messages_taken}

-- What a call has of its own.
pub record Variables : Type 0 where
  pub count : ℕ
  pub queued : ℕ
  pub log : List LogLine

-- The variables of a call, beside the counter of the 2-layer service, which it leaves alone.
abbrev pub Full : Type 0
Full = Gnmi.Call × ℕ

abbrev pub variables_of : Full → Variables
variables_of (s, n) = record { count = s.count; queued = s.queued; log = s.log }

abbrev pub counters_of : Full → Counters
counters_of (s, n) = record { stats = s.stats; service_count = n }

abbrev pub with_counters : Variables → Counters → Full
with_counters l c =
    (record { count = l.count; queued = l.queued; stats = c.stats; log = l.log }, c.service_count)

module _ (json : Json) {R P : Type 0} (codec : GnmiCodec R P) (config : GnmiConfig) (peer : Str)
    {S : Type 0} (show : S → Str) where
  abbrev pub to_end : Full → List (Item S R) → Full × Answer S
  to_end (s, n) items =
      let r =
        closed json codec config peer show (publish_loop json codec config peer show s items) in
      ((r.0, n), r.1)

  -- The `send` behind the body of the loop.
  abbrev pub sent : Bool → Gnmi.Call → Gnmi.Call × Option (Answer S)
  sent true s = (record s { queued = s.queued + 1 }, none)
  sent false s = (s, some waits)

  abbrev pub on_item : Full → Item S R → Full × Option (Answer S)
  on_item (s, n) (message m) =
      let r = sent (ltb s.queued channel_size) (on_message json codec config peer s m) in
      ((r.0, n), r.1)
  on_item s (fault e) = let r = to_end s (fault e ∷ []) in (r.0, some r.1)

  on_message-apart :
      (s t : Gnmi.Call) (n k : ℕ) (m : R)
      → variables_of (s, n) ≡ variables_of (t, k)
      → variables_of (on_message json codec config peer s m, n)
        ≡ variables_of (on_message json codec config peer t m, k)
  unfolding on_message
  on_message-apart s t n k m h = ground (arith, h)

  sent-apart :
      (b c : Bool) (s t : Gnmi.Call) (n k : ℕ)
      → b ≡ c
      → variables_of (s, n) ≡ variables_of (t, k)
      → (variables_of ((sent b s).0, n) ≡ variables_of ((sent c t).0, k))
        × ((sent b s).1 ≡ (sent c t).1)
  sent-apart true true s t n k same h = (ground (arith, h), refl)
  sent-apart false false s t n k same h = (h, refl)
  sent-apart true false s t n k same h = ground (arith, same)
  sent-apart false true s t n k same h = ground (arith, same)

  pub on_item-apart :
      (s t : Full) (x : Item S R)
      → variables_of s ≡ variables_of t
      → (variables_of (on_item s x).0 ≡ variables_of (on_item t x).0)
        × ((on_item s x).1 ≡ (on_item t x).1)
  unfolding publish_loop
  on_item-apart (s, n) (t, k) (message m) h =
      sent-apart (ltb s.queued channel_size) (ltb t.queued channel_size)
        (on_message json codec config peer s m) (on_message json codec config peer t m) n k
        (ap (λ l. ltb l.queued channel_size) h) (on_message-apart s t n k m h)
  on_item-apart (s, n) (t, k) (fault e) h = (ground (arith, h), refl)

  pub to_end-apart :
      (s t : Full)
      → variables_of s ≡ variables_of t
      → (variables_of (to_end s []).0 ≡ variables_of (to_end t []).0)
        × ((to_end s []).1 ≡ (to_end t []).1)
  unfolding publish_loop
  to_end-apart (s, n) (t, k) h = (ground (arith, h), ground (arith, h))

  sent_counts : (b : Bool) (s : Gnmi.Call) → (sent b s).0.stats ≡ s.stats
  sent_counts true s = refl
  sent_counts false s = refl

  pub on_item_counts :
      (s : Full) (x : Item S R)
      → (counters_of (on_item s x).0).stats
        ≡ (if is_message x then incr_msg_count (counters_of s).stats else (counters_of s).stats)
  unfolding on_message publish_loop
  on_item_counts (s, n) (message m) =
      sent_counts (ltb s.queued channel_size) (on_message json codec config peer s m)
  on_item_counts (s, n) (fault e) = refl

  pub to_end_counts : (s : Full) → (counters_of (to_end s []).0).stats ≡ (counters_of s).stats
  unfolding publish_loop
  to_end_counts (s, n) = refl

  -- `publish` as a loop over its stream.
  abbrev pub publish_calls : CallLoop Full Variables S R (Answer S)
  publish_calls = record {
    variables_of = variables_of;
    counters_of = counters_of;
    with_counters = with_counters;
    on_item = on_item;
    on_end = λ s. to_end s [];
    variables_of-with_counters = λ l c. refl;
    counters_of-with_counters = λ l c. refl;
    on_item-apart = on_item-apart;
    on_end-apart = to_end-apart;
    on_item_counts = on_item_counts;
    on_end_counts = to_end_counts;
  }

  loop-to_end : (s : Full) (items : List (Item S R)) → loop publish_calls s items ≡ to_end s items
  unfolding loop publish_loop
  loop-to_end s [] = refl
  loop-to_end (s, n) (message m ∷ items) =
      let s' : Gnmi.Call = on_message json codec config peer s m in
      let room : Gnmi.Call = record s' { queued = s.queued + 1 } in
      elim (Bool-cases (ltb s.queued channel_size)) [
        | inl free ↦ rw free (loop-to_end (room, n) items)
        | inr full ↦ rw full refl
      ]
  loop-to_end s (fault e ∷ items) = refl

  -- A gNMI call among any calls at its address, which gets more turns than its stream has items: its log,
  -- its counter, the responses in its channel and its answer, which may be that it waits, are those of
  -- `publish` on that stream with no other call.
  pub publish_among_calls :
      (rs : List Call) (c : Counters) (schedule : List ℕ) (i : ℕ) (stats : Stats)
      (log : List LogLine) (n : ℕ) (items : List (Item S R))
      → let start = opened json codec config peer show stats log in
        let done = publish json codec config peer show stats log items in
        get_elem? rs i ≡ some (accepted publish_calls (start, n) items)
        → length items < turns_of schedule i
        → (rest : List (Item S R)) × (get_elem? (run_calls rs c schedule).0 i
            ≡ some (stream_call publish_calls (finished publish_calls ((done.0, n), done.1) rest)))
  unfolding publish
  publish_among_calls rs c schedule i stats log n items here enough =
      let start = opened json codec config peer show stats log in
      let (rest, done) =
        loop_among_calls publish_calls rs c schedule i (start, n) items here enough in
      (
        rest,
        done
            ∙ ap (λ r. some (stream_call publish_calls (finished publish_calls r rest)))
                (loop-to_end (start, n) items),
      )

  -- A gNMI call takes the messages before the first fault, but no more than one beyond the free places
  -- of its channel.
  pub messages_taken-publish_calls :
      (s : Gnmi.Call) (n : ℕ) (items : List (Item S R))
      → s.queued ≤ 64
      → messages_taken publish_calls (s, n) items ≡ min (length (messages items)) (65 - s.queued)
  unfolding messages_taken publish_loop
  messages_taken-publish_calls s n [] room = omega arith
  messages_taken-publish_calls s n (message m ∷ items) room =
      let s' : Gnmi.Call = on_message json codec config peer s m in
      let room' : Gnmi.Call = record s' { queued = s.queued + 1 } in
      elim (Bool-cases (ltb s.queued channel_size)) [
        | inl free ↦
            let below : s.queued < 64 = ltb→lt s.queued 64 free in
            rw free (omega (arith, below, messages_taken-publish_calls room' n items (omega arith)))
        | inr full ↦ rw full (ground (arith, full))
      ]
  messages_taken-publish_calls s n (fault e ∷ items) room = omega arith
