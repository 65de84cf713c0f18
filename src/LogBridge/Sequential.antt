-- ===== src/LogBridge/Sequential.antt =====
-- Whole events and drains against the step relation of the log bridge.
use grpc_server_rust.Prelude.{
  ℕ, zero, suc, ◌+◌, ◌-◌, ◌%◌, ◌^◌, ◌≤◌, ◌≡◌, refl, sym, ap, inl, inr, arith, Bool-cases, false,
  ltb, List, [], ◌∷◌, Str, length, length-append,
}
use mathlib.Core.Path.{subst}
use grpc_server_rust.LogBridge.{
  event_text, max_channel_backlog, Bridge, load, send, count, receive, see_empty, subtract, Reach,
  here, next,
}
use grpc_server_rust.LogBridge.Events.{
  Channel, empty_channel, on_event, taken, drain, Op, event, poll, run, bridge_of,
}

abbrev with_queue : ℕ → ℕ → ℕ → Bridge
with_queue counter queue received = record {
  counter = counter;
  queue = queue;
  checked = 0;
  sent = 0;
  received = received;
  drained = false;
}

receive_all :
    (n counter received : ℕ)
    → Reach 1 (with_queue counter n received)
    → Reach 1 (with_queue counter 0 (received + n))
receive_all zero counter received r = subst (λ k. Reach 1 (with_queue counter 0 k)) (omega arith) r
receive_all (suc n) counter received r =
    let smaller : suc n - 1 ≡ n = omega arith in
    let one =
      subst (λ k. Reach 1 (with_queue counter k (received + 1))) smaller
        (next r (receive (omega arith) refl)) in
    subst (λ k. Reach 1 (with_queue counter 0 k)) (omega arith)
      (receive_all n counter (received + 1) one)

on_event-Reach :
    (level msg : Str) (ch : Channel)
    → Reach 1 (bridge_of ch)
    → Reach 1 (bridge_of (on_event level msg ch))
unfolding on_event
on_event-Reach level msg ch r = elim (Bool-cases (ltb ch.counter max_channel_backlog)) [
  | inl room ↦
      let done =
        next (next (next r (load room (omega arith))) (send (omega arith))) (count (omega arith)) in
      rw room (
        subst (λ k. Reach 1 (with_queue ((ch.counter + 1) % 2 ^ 64) k 0))
          (sym (length-append ch.queue (event_text level msg ∷ []))) done)
  | inr full ↦ rw full r
]

taken-Reach :
    (ms : List Str) (ch : Channel)
    → ch.queue ≡ ms
    → Reach 1 (bridge_of ch)
    → Reach 1 (bridge_of (taken ms ch))
taken-Reach [] ch e r = r
taken-Reach (m ∷ ms) ch e r =
    let n = length (m ∷ ms) in
    let all =
      subst (λ k. Reach 1 (with_queue ch.counter 0 k)) (omega arith)
        (receive_all n ch.counter 0
          (subst (λ q. Reach 1 (with_queue ch.counter (length q) 0)) e r)) in
    next (next all (see_empty refl refl)) (subtract refl)

-- The counter is exact, and in range.
abbrev IsExact : Channel → Type 0
IsExact ch = (ch.counter ≡ length ch.queue) × (length ch.queue ≤ 2000)

on_event-IsExact : (level msg : Str) (ch : Channel) → IsExact ch → IsExact (on_event level msg ch)
unfolding on_event
on_event-IsExact level msg ch (exact, few) =
    ground (arith, exact, few, length-append ch.queue (event_text level msg ∷ []))

taken-IsExact : (ms : List Str) (ch : Channel) → ch.queue ≡ ms → IsExact ch → IsExact (taken ms ch)
taken-IsExact [] ch e exact = exact
taken-IsExact (m ∷ ms) ch e (exact, few) = (omega (arith, exact, few, ap length e), omega arith)

run_sequential :
    (ops : List Op) (ch : Channel)
    → Reach 1 (bridge_of ch)
    → ch.counter ≡ length ch.queue
    → length ch.queue ≤ 2000
    → Reach 1 (bridge_of (run ch ops))
      × ((run ch ops).counter ≡ length (run ch ops).queue)
      × (length (run ch ops).queue ≤ 2000)
unfolding run drain
run_sequential [] ch r exact few = (r, exact, few)
run_sequential (event level msg ∷ ops) ch r exact few =
    let (exact', few') = on_event-IsExact level msg ch (exact, few) in
    run_sequential ops (on_event level msg ch) (on_event-Reach level msg ch r) exact' few'
run_sequential (poll ∷ ops) ch r exact few =
    let (exact', few') = taken-IsExact ch.queue ch refl (exact, few) in
    run_sequential ops (taken ch.queue ch) (taken-Reach ch.queue ch refl r) exact' few'

-- Any sequence of whole events and whole drains on a channel that starts empty: it is a run of the
-- interleaving semantics with one thread, and at its end the counter is exactly the number of
-- messages in the channel, and at most 2000.
pub run-Reach :
    (ops : List Op)
    → let ch = run empty_channel ops in
      Reach 1 (bridge_of ch) × (ch.counter ≡ length ch.queue) × (length ch.queue ≤ 2000)
run-Reach ops = run_sequential ops empty_channel here refl (omega arith)
