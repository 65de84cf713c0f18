-- ===== src/LogBridge/Backlog.antt =====
-- The counter of the backlog against the messages that it counts, over every interleaving.
use grpc_server_rust.Prelude.{ℕ, ◌+◌, ◌%◌, ◌^◌, ◌<◌, ◌≤◌, ◌≡◌, arith, false, ltb, ltb→lt}
use mathlib.Core.Logic.{◌⊎◌, inl, inr}
use native.Mathlib.Decide.{dec_lt}
use grpc_server_rust.LogBridge.{
  Bridge, Step, load, send, count, receive, see_empty, subtract, Reach, here, next,
  max_channel_backlog,
}

-- The counter lags behind by the producers that have sent and not counted, and runs ahead by the
-- messages that the consumer has received and not subtracted. No more messages are under way than
-- the threshold and one for each thread.
record IsCounted (threads : ℕ) (s : Bridge) : Type 0 where
  balance : (s.counter + s.sent) % 2 ^ 64 ≡ (s.queue + s.received) % 2 ^ 64
  in_range : s.counter < 2 ^ 64
  busy : s.checked + s.sent ≤ threads
  bound : s.queue + s.received + s.checked ≤ 2000 + threads

module _ {threads : ℕ} (few : threads < 2 ^ 32) where
  Step-IsCounted : {s t : Bridge} → Step threads s t → IsCounted threads s → IsCounted threads t
  Step-IsCounted {s} (load h k) c =
      omega (arith, c.balance, c.in_range, c.busy, c.bound, k, few, ltb→lt s.counter 2000 h)
  Step-IsCounted (send h) c = omega (arith, c.balance, c.in_range, c.busy, c.bound, h)
  Step-IsCounted (count h) c = omega (arith, c.balance, c.in_range, c.busy, c.bound, h)
  Step-IsCounted (receive h d) c = omega (arith, c.balance, c.in_range, c.busy, c.bound, h)
  Step-IsCounted (see_empty h d) c = omega (arith, c.balance, c.in_range, c.busy, c.bound, h)
  Step-IsCounted (subtract d) c = omega (arith, c.balance, c.in_range, c.busy, c.bound)

  Reach-IsCounted : {s : Bridge} → Reach threads s → IsCounted threads s
  Reach-IsCounted here = omega arith
  Reach-IsCounted (next r st) = Step-IsCounted st (Reach-IsCounted r)

  -- With fewer than 2 ^ 32 threads that log, however their operations and the consumer's
  -- interleave: the channel holds at most 2000 messages and one for each thread, and either the
  -- counter with the sends that are not counted yet is exactly the number of messages under way, or
  -- the consumer has subtracted messages before they were counted, and then the wrapped counter is
  -- not below the threshold, so that every event is dropped.
  pub backlog_counter :
      {s : Bridge}
      → Reach threads s
      → (s.queue ≤ 2000 + threads)
        × ((s.counter + s.sent ≡ s.queue + s.received)
            ⊎ ((s.queue + s.received < s.sent) × (ltb s.counter max_channel_backlog ≡ false)))
  backlog_counter {s} r =
      let c = Reach-IsCounted r in
      elim (dec_lt (s.queue + s.received) s.sent) [
        | yes late ↦ (
          omega (arith, c.bound),
          inr (late, ground (arith, c.balance, c.in_range, c.busy, c.bound)),
        )
        | no early ↦
            (omega (arith, c.bound), inl (omega (arith, c.balance, c.in_range, c.busy, c.bound)))
      ]
