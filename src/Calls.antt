-- ===== src/Calls.antt =====
-- Calls of the services of src-tauri/src/dialout that run at the same time at one address. Each call is a
-- task of its own with its own stream; what the calls share are the counters, which are atomics. A
-- schedule is the order in which the calls handle what their streams give them.
pub mod Apart
pub mod Loop
pub mod TwoLayer
pub mod ThreeLayer
pub mod Publish
pub mod Taken
pub mod Total
use grpc_server_rust.Prelude.{
  ℕ, zero, suc, ◌+◌, ◌≡◌, Bool, Option, none, some, List, [], ◌∷◌, if◌then◌else◌,
}
use grpc_server_rust.Models.Stats.{Stats, incr_msg_count}

-- The counters of src-tauri/src/models.rs, and that of the 2-layer service.
pub record Counters : Type 0 where
  pub stats : Stats
  pub service_count : ℕ

-- What a service does with the next item of a call's stream, from the call's own variables: the calls
-- rely on `counts` and `apart` of each other.
pub record CallService (State : Type 0) : Type 0 where
  pub turn : State → Counters → State × Counters
  pub takes : State → Bool
  pub apart : (s : State) (c d : Counters) → (turn s c).0 ≡ (turn s d).0
  pub counts :
      (s : State) (c : Counters)
      → (turn s c).1.stats ≡ (if takes s then incr_msg_count c.stats else c.stats)

pub record Call : Type 1 where
  pub State : Type 0
  pub service : CallService State
  pub state : State

abbrev pub with_state : (r : Call) → r.State → Call
with_state r s = record { State = r.State; service = r.service; state = s }

abbrev pub take_turn : Call → Counters → Call × Counters
take_turn r c = let t = r.service.turn r.state c in (with_state r t.0, t.1)

-- The call at an index handles its next item; there is nothing to do behind the last call.
unfoldable pub turn_at : ℕ → List Call → Counters → List Call × Counters
turn_at j [] c = ([], c)
turn_at zero (r ∷ rs) c = let t = take_turn r c in (t.0 ∷ rs, t.1)
turn_at (suc j) (r ∷ rs) c = let t = turn_at j rs c in (r ∷ t.0, t.1)

unfoldable pub run_calls : List Call → Counters → List ℕ → List Call × Counters
unfolding turn_at
run_calls rs c [] = (rs, c)
run_calls rs c (j ∷ schedule) = let t = turn_at j rs c in run_calls t.0 t.1 schedule

-- How often a schedule names each index.
abbrev pub one_more : ℕ → (ℕ → ℕ) → ℕ → ℕ
one_more zero turns zero = suc (turns zero)
one_more zero turns (suc i) = turns (suc i)
one_more (suc j) turns zero = turns zero
one_more (suc j) turns (suc i) = one_more j (λ k. turns (suc k)) i

abbrev pub turns_of : List ℕ → ℕ → ℕ
turns_of [] i = 0
turns_of (j ∷ schedule) i = one_more j (turns_of schedule) i

-- A call that runs with no other, where each turn finds the same counters.
unfoldable pub alone : Counters → ℕ → Call → Call
alone d zero r = r
alone d (suc n) r = alone d n (take_turn r d).0

-- The messages that it handles in so many turns.
unfoldable pub handled_alone : Counters → ℕ → Call → ℕ
handled_alone d zero r = 0
handled_alone d (suc n) r =
    (if r.service.takes r.state then 1 else 0) + handled_alone d n (take_turn r d).0

unfoldable pub handled_by_all : Counters → (ℕ → ℕ) → List Call → ℕ
unfolding handled_alone
handled_by_all d turns [] = 0
handled_by_all d turns (r ∷ rs) =
    handled_alone d (turns zero) r + handled_by_all d (λ k. turns (suc k)) rs
