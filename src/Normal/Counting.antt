-- ===== src/Normal/Counting.antt =====
-- What a call of `dialout` counts and answers.
use grpc_server_rust.Prelude.{
  ◌+◌, ◌%◌, ◌^◌, ◌≡◌, refl, arith, Option, none, some, List, [], ◌∷◌, Str, length, if◌then◌else◌,
}
use grpc_server_rust.Error.{Outcome, ok, err}
use grpc_server_rust.Wire.{Json, DialoutCodec, DialoutMsg}
use grpc_server_rust.Stream.{Item, message, fault, messages, first_fault}
use grpc_server_rust.Models.Stats.{incr, incr_msg_count, incr_client_count}
use grpc_server_rust.Normal.{DialoutConfig, Call, on_message, dialout_loop, opened, closed, dialout}

-- The empty response, or the status of the fault.
abbrev pub answer : {S : Type 0} → Option S → Outcome S Str
answer none = ok []
answer (some e) = err e

module _ (json : Json) (codec : DialoutCodec) (config : DialoutConfig) (peer : Str) {S : Type 0}
    (show : S → Str) where
  abbrev loop : Call → List (Item S DialoutMsg) → Call × Outcome S Str
  loop s items = dialout_loop json codec config peer show s items

  on_message_counts :
      (s : Call) (msg : DialoutMsg)
      → let s' = on_message json codec config peer s msg in
        (s'.client_count ≡ incr s.client_count)
        × (s'.service_count
            ≡ (if config.performance_mode then s.service_count else incr s.service_count))
        × (s'.stats ≡ record s.stats { msg_count = incr s.stats.msg_count })
  unfolding on_message incr_msg_count
  on_message_counts s msg = ground arith

  loop_counts :
      (s : Call) (items : List (Item S DialoutMsg))
      → ((loop s items).0.client_count % 2 ^ 64
          ≡ (s.client_count + length (messages items)) % 2 ^ 64)
        × ((loop s items).0.service_count % 2 ^ 64 ≡ (
            if config.performance_mode
            then s.service_count % 2 ^ 64
            else (s.service_count + length (messages items)) % 2 ^ 64))
        × ((loop s items).0.stats.msg_count % 2 ^ 64
            ≡ (s.stats.msg_count + length (messages items)) % 2 ^ 64)
        × ((loop s items).0.stats.client_count ≡ s.stats.client_count)
        × ((loop s items).1 ≡ answer (first_fault items))
  unfolding dialout_loop
  loop_counts s [] = ground arith
  loop_counts s (fault e ∷ items) = ground arith
  loop_counts s (message msg ∷ items) =
      ground (
        arith,
        on_message_counts s msg,
        loop_counts (on_message json codec config peer s msg) items,
      )

  closed_keeps :
      (r : Call × Outcome S Str)
      → let done = closed json codec config peer show r in
        (done.0.client_count ≡ r.0.client_count)
        × (done.0.service_count ≡ r.0.service_count)
        × (done.0.stats ≡ r.0.stats)
        × (done.1 ≡ r.1)
  closed_keeps (s, ok response) = (refl, refl, refl, refl)
  closed_keeps (s, err e) = (refl, refl, refl, refl)

  -- A call handles exactly the messages before the first fault of its stream: its own counter and
  -- the global message counter go up by their number, the counter of the service goes up by it
  -- unless performance mode is on and then stays, all modulo 2 ^ 64, one client is counted, and the
  -- answer is the status of that fault, or the empty response where there is none.
  pub dialout_counts :
      (s : Call) (items : List (Item S DialoutMsg))
      → let done = dialout json codec config peer show s items in
        let n = length (messages items) in
        (done.0.client_count % 2 ^ 64 ≡ n % 2 ^ 64)
        × (done.0.service_count % 2 ^ 64 ≡ (
            if config.performance_mode
            then s.service_count % 2 ^ 64
            else (s.service_count + n) % 2 ^ 64))
        × (done.0.stats.msg_count % 2 ^ 64 ≡ (s.stats.msg_count + n) % 2 ^ 64)
        × (done.0.stats.client_count ≡ incr s.stats.client_count)
        × (done.1 ≡ answer (first_fault items))
  unfolding dialout incr_client_count
  dialout_counts s items =
      let s' = opened json codec config peer show s in
      ground (arith, closed_keeps (loop s' items), loop_counts s' items)
