-- ===== src/Gnmi/Backlog.antt =====
-- How far a call of `publish` comes: its channel holds 64 responses.
use grpc_server_rust.Prelude.{
  ℕ, suc, ◌+◌, ◌-◌, ◌%◌, ◌^◌, ◌≤◌, ◌<◌, ◌≡◌, min, refl, ap, ◌∙◌, arith, Bool-cases, inl, inr,
  Option, none, some, List, [], ◌∷◌, Str, length, ltb, ltb→lt, if◌then◌else◌,
}
use grpc_server_rust.Log.{LogLine}
use grpc_server_rust.Wire.{Json}
use grpc_server_rust.Stream.{Item, message, fault, messages, first_fault}
use grpc_server_rust.Models.Stats.{Stats, incr, incr_msg_count, incr_client_count}
use grpc_server_rust.Gnmi.Printing.{GnmiConfig, GnmiCodec}
use grpc_server_rust.Gnmi.{
  Call, Answer, responses, status, waits, on_message, publish_loop, opened, closed, publish,
}

-- The answer after `n` messages, of which the channel takes at most `room`.
abbrev pub answer_of : {S : Type 0} → ℕ → ℕ → ℕ → Option S → Answer S
answer_of room queued n fault_met =
    if ltb room n
    then waits
    else elim fault_met [ none ↦ responses (queued + n) | some e ↦ status e ]

answer_of-room :
    {S : Type 0} (queued n : ℕ) (f : Option S)
    → queued < 64
    → answer_of (64 - (queued + 1)) (queued + 1) n f ≡ answer_of (64 - queued) queued (suc n) f
answer_of-room queued n none h = ground arith
answer_of-room queued n (some e) h = ground arith

answer_of-full :
    {S : Type 0} (queued n : ℕ) (f : Option S)
    → 64 ≤ queued
    → waits ≡ answer_of (64 - queued) queued (suc n) f
answer_of-full queued n none h = ground arith
answer_of-full queued n (some e) h = ground arith

answer_of-start :
    {S : Type 0} (n : ℕ) (f : Option S)
    → answer_of 64 0 n f
      ≡ (if ltb 64 n then waits else elim f [ none ↦ responses n | some e ↦ status e ])
answer_of-start n none = ap (λ k. if ltb 64 n then waits else responses k) (omega arith)
answer_of-start n (some e) = refl

module _ (json : Json) {R P : Type 0} (codec : GnmiCodec R P) (config : GnmiConfig) (peer : Str)
    {S : Type 0} (show : S → Str) where
  abbrev loop : Call → List (Item S R) → Call × Answer S
  loop s items = publish_loop json codec config peer show s items

  loop_counts :
      (s : Call) (items : List (Item S R))
      → s.queued ≤ 64
      → s.count ≡ s.queued
      → let n = length (messages items) in
        let handled = min n (65 - s.queued) in
        ((loop s items).0.count ≡ s.queued + handled)
        × ((loop s items).0.stats.msg_count % 2 ^ 64 ≡ (s.stats.msg_count + handled) % 2 ^ 64)
        × ((loop s items).0.stats.client_count ≡ s.stats.client_count)
        × ((loop s items).1 ≡ answer_of (64 - s.queued) s.queued n (first_fault items))
  unfolding publish_loop on_message incr_msg_count
  loop_counts s [] room same = (omega (arith, same), omega arith, refl, ground arith)
  loop_counts s (fault e ∷ items) room same = (omega (arith, same), omega arith, refl, ground arith)
  loop_counts s (message r ∷ items) room same =
      let s' : Call = on_message json codec config peer s r in
      let s'' : Call = record s' { queued = s.queued + 1 } in
      elim (Bool-cases (ltb s.queued 64)) [
        | inl free ↦
            let below : s.queued < 64 = ltb→lt _ _ free in
            let (a, b, c, d) = loop_counts s'' items (omega arith) (omega arith) in
            rw free (
              omega (arith, a, below),
              omega (arith, b, below),
              c,
              d ∙ answer_of-room s.queued (length (messages items)) (first_fault items) below,
            )
        | inr full ↦
            let queue_full : 64 ≤ s.queued = ground arith in
            rw full (
              omega (arith, queue_full, same, room),
              omega (arith, queue_full, room),
              refl,
              answer_of-full s.queued (length (messages items)) (first_fault items) queue_full,
            )
      ]

  closed_keeps :
      (r : Call × Answer S)
      → let done = closed json codec config peer show r in
        (done.0.count ≡ r.0.count) × (done.0.stats ≡ r.0.stats) × (done.1 ≡ r.1)
  closed_keeps (s, responses n) = (refl, refl, refl)
  closed_keeps (s, status e) = (refl, refl, refl)
  closed_keeps (s, waits) = (refl, refl, refl)

  -- A call handles the messages before the first fault of its stream, but never more than 65: it
  -- counts each that it handles, and one client. With 65 such messages or more it waits for ever
  -- and answers nothing; with fewer it answers with the status of the fault, or, where there is
  -- none, with one response for each message.
  pub publish_counts :
      (stats : Stats) (log : List LogLine) (items : List (Item S R))
      → let done = publish json codec config peer show stats log items in
        let n = length (messages items) in
        (done.0.count ≡ min n 65)
        × (done.0.stats.msg_count % 2 ^ 64 ≡ (stats.msg_count + min n 65) % 2 ^ 64)
        × (done.0.stats.client_count ≡ incr stats.client_count)
        × (done.1 ≡ (
            if ltb 64 n
            then waits
            else elim (first_fault items) [ none ↦ responses n | some e ↦ status e ]))
  unfolding publish incr_client_count
  publish_counts stats log items =
      let s' = opened json codec config peer show stats log in
      let (a, b, c) = closed_keeps (loop s' items) in
      let (d, e, f, g) = loop_counts s' items (omega arith) refl in
      (
        a ∙ d ∙ omega arith,
        ap (λ t. t.msg_count % 2 ^ 64) b ∙ e ∙ omega arith,
        ap (λ t. t.client_count) b ∙ f,
        c ∙ g ∙ answer_of-start (length (messages items)) (first_fault items),
      )
