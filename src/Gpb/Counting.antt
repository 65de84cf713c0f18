-- ===== src/Gpb/Counting.antt =====
-- What a call of `dialout_v3` counts and answers.
use grpc_server_rust.Prelude.{
  ◌+◌, ◌%◌, ◌^◌, ◌≡◌, refl, ap, ◌∙◌, arith, Option, none, some, List, [], ◌∷◌, Bytes, Str, length,
}
use grpc_server_rust.Error.{Outcome, ok, err}
use grpc_server_rust.Log.{LogLine}
use grpc_server_rust.Wire.{Json, DialoutV3Args, TelemetryCodec}
use grpc_server_rust.Stream.{Item, message, fault, messages, first_fault}
use grpc_server_rust.Models.Stats.{Stats, incr, incr_msg_count, incr_client_count}
use grpc_server_rust.Registry.{Registry}
use grpc_server_rust.Dynamic.{JsonMaker, Reflect}
use grpc_server_rust.Gpb.Printing.{V3Config}
use grpc_server_rust.Gpb.{
  Call, assemble_chunk, on_assembled, on_message, dialout_loop, opened, closed, dialout_v3,
}

-- An empty stream of responses, or the status of the fault.
abbrev pub answer : {S : Type 0} → Option S → Outcome S (List DialoutV3Args)
answer none = ok []
answer (some e) = err e

module _ (json : Json) {D K : Type 0} (make : JsonMaker json K) (reflect : Reflect D K)
    (codec : TelemetryCodec) (config : V3Config) (peer : Str) (registry : Outcome Str (Registry D))
    {S : Type 0} (show : S → Str) where
  abbrev loop : Call → List (Item S DialoutV3Args) → Call × Option S
  loop s items = dialout_loop json make reflect codec config peer registry show s items

  on_assembled_counts :
      (s : Call) (r : DialoutV3Args) (done : Option Bytes × List LogLine)
      → let s' = on_assembled json make reflect codec config peer registry s r done in
        (s'.count ≡ s.count) × (s'.stats ≡ s.stats)
  unfolding on_assembled
  on_assembled_counts s r (none, lines) = (refl, refl)
  on_assembled_counts s r (some bytes, lines) = (refl, refl)

  pub on_message_counts :
      (s : Call) (r : DialoutV3Args)
      → let s' = on_message json make reflect codec config peer registry s r in
        (s'.count ≡ incr s.count)
        × (s'.stats ≡ record s.stats { msg_count = incr s.stats.msg_count })
  unfolding on_message incr_msg_count
  on_message_counts s r =
      let s' = record s {
        count = incr s.count;
        stats = record s.stats { msg_count = incr s.stats.msg_count };
      } in
      ground (arith, on_assembled_counts s' r (assemble_chunk s.chunk_data r))

  loop_counts :
      (s : Call) (items : List (Item S DialoutV3Args))
      → ((loop s items).0.count % 2 ^ 64 ≡ (s.count + length (messages items)) % 2 ^ 64)
        × ((loop s items).0.stats.msg_count % 2 ^ 64
            ≡ (s.stats.msg_count + length (messages items)) % 2 ^ 64)
        × ((loop s items).0.stats.client_count ≡ s.stats.client_count)
        × ((loop s items).1 ≡ first_fault items)
  unfolding dialout_loop
  loop_counts s [] = (omega arith, omega arith, refl, refl)
  loop_counts s (fault e ∷ items) = (omega arith, omega arith, refl, refl)
  loop_counts s (message r ∷ items) =
      let s' = on_message json make reflect codec config peer registry s r in
      let (a, b) = on_message_counts s r in
      let (c, d, e, f) = loop_counts s' items in
      (
        omega (arith, a, c),
        omega (arith, ap (λ t. t.msg_count) b, d),
        e ∙ ap (λ t. t.client_count) b,
        f,
      )

  closed_keeps :
      (r : Call × Option S)
      → let done = closed json make reflect codec config peer registry show r in
        (done.0.count ≡ r.0.count) × (done.0.stats ≡ r.0.stats) × (done.1 ≡ answer r.1)
  closed_keeps (s, none) = (refl, refl, refl)
  closed_keeps (s, some e) = (refl, refl, refl)

  -- A call handles exactly the messages before the first fault of its stream: its counter and the
  -- global message counter go up by their number, modulo 2 ^ 64, one client is counted, and the
  -- answer is the status of that fault, or an empty stream of responses where there is none.
  pub dialout_v3_counts :
      (stats : Stats) (log : List LogLine) (items : List (Item S DialoutV3Args))
      → let done = dialout_v3 json make reflect codec config peer registry show stats log items in
        let n = length (messages items) in
        (done.0.count % 2 ^ 64 ≡ n % 2 ^ 64)
        × (done.0.stats.msg_count % 2 ^ 64 ≡ (stats.msg_count + n) % 2 ^ 64)
        × (done.0.stats.client_count ≡ incr stats.client_count)
        × (done.1 ≡ answer (first_fault items))
  unfolding dialout_v3 incr_client_count
  dialout_v3_counts stats log items =
      let s' = opened json make reflect codec config peer registry show stats log in
      let (a, b, c) = closed_keeps (loop s' items) in
      let (d, e, f, g) = loop_counts s' items in
      (
        omega (arith, a, d),
        omega (arith, ap (λ t. t.msg_count) b, e),
        ap (λ t. t.client_count) b ∙ f,
        c ∙ ap answer g,
      )
