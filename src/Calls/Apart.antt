-- ===== src/Calls/Apart.antt =====
-- What the calls of a server do to each other: nothing but counting.
use grpc_server_rust.Prelude.{
  ℕ, zero, suc, ◌+◌, ◌%◌, ◌^◌, ◌≡◌, refl, ap, ◌∙◌, arith, Bool, true, false, Option, none, some,
  List, [], ◌∷◌, get_elem?, if◌then◌else◌,
}
use grpc_server_rust.Models.Stats.{Stats, incr_msg_count}
use grpc_server_rust.Calls.{
  Counters, Call, with_state, take_turn, turn_at, run_calls, one_more, turns_of, alone,
  handled_alone, handled_by_all,
}

abbrev pub map_call : (Call → Call) → Option Call → Option Call
map_call f none = none
map_call f (some r) = some (f r)

-- A turn leaves a call in the same state, whatever the counters are.
take_turn-apart : (r : Call) (c d : Counters) → (take_turn r c).0 ≡ (take_turn r d).0
take_turn-apart r c d = ap (with_state r) (r.service.apart r.state c d)

counted :
    (b : Bool) (t s : Stats)
    → t ≡ (if b then incr_msg_count s else s)
    → (t.msg_count % 2 ^ 64 ≡ (s.msg_count + (if b then 1 else 0)) % 2 ^ 64)
      × (t.client_count ≡ s.client_count)
unfolding incr_msg_count
counted true t s e = (omega (arith, ap (λ u. u.msg_count) e), ap (λ u. u.client_count) e)
counted false t s e = (omega (arith, ap (λ u. u.msg_count) e), ap (λ u. u.client_count) e)

module _ (d : Counters) where
  get_elem?-turn_at :
      (turns : ℕ → ℕ) (j : ℕ) (rs : List Call) (c : Counters) (i : ℕ)
      → map_call (alone d (turns i)) (get_elem? (turn_at j rs c).0 i)
        ≡ map_call (alone d (one_more j turns i)) (get_elem? rs i)
  unfolding turn_at alone
  get_elem?-turn_at turns j [] c i = refl
  get_elem?-turn_at turns zero (r ∷ rs) c zero =
      ap (λ t. some (alone d (turns zero) t)) (take_turn-apart r c d)
  get_elem?-turn_at turns zero (r ∷ rs) c (suc i) = refl
  get_elem?-turn_at turns (suc j) (r ∷ rs) c zero = refl
  get_elem?-turn_at turns (suc j) (r ∷ rs) c (suc i) =
      get_elem?-turn_at (λ k. turns (suc k)) j rs c i

  get_elem?-run_calls :
      (rs : List Call) (c : Counters) (schedule : List ℕ) (i : ℕ)
      → get_elem? (run_calls rs c schedule).0 i
        ≡ map_call (alone d (turns_of schedule i)) (get_elem? rs i)
  unfolding run_calls alone
  get_elem?-run_calls rs c [] i = map_call_same (get_elem? rs i)
    where
      map_call_same : (o : Option Call) → o ≡ map_call (λ r. r) o
      map_call_same none = refl
      map_call_same (some r) = refl
  get_elem?-run_calls rs c (j ∷ schedule) i =
      let t = turn_at j rs c in
      get_elem?-run_calls t.0 t.1 schedule i ∙ get_elem?-turn_at (turns_of schedule) j rs c i

  abbrev takes_at : ℕ → List Call → ℕ
  takes_at j [] = 0
  takes_at zero (r ∷ rs) = if r.service.takes r.state then 1 else 0
  takes_at (suc j) (r ∷ rs) = takes_at j rs

  handled_by_all-turn_at :
      (turns : ℕ → ℕ) (j : ℕ) (rs : List Call) (c : Counters)
      → handled_by_all d (one_more j turns) rs
        ≡ takes_at j rs + handled_by_all d turns (turn_at j rs c).0
  unfolding turn_at handled_by_all handled_alone
  handled_by_all-turn_at turns j [] c = refl
  handled_by_all-turn_at turns zero (r ∷ rs) c =
      omega (arith, ap (handled_alone d (turns zero)) (take_turn-apart r d c))
  handled_by_all-turn_at turns (suc j) (r ∷ rs) c =
      omega (arith, handled_by_all-turn_at (λ k. turns (suc k)) j rs c)

  handled_by_all-none : (rs : List Call) → handled_by_all d (λ i. 0) rs ≡ 0
  unfolding handled_by_all handled_alone
  handled_by_all-none [] = refl
  handled_by_all-none (r ∷ rs) = omega (arith, handled_by_all-none rs)

  turn_at_counts :
      (j : ℕ) (rs : List Call) (c : Counters)
      → let stats = (turn_at j rs c).1.stats in
        (stats.msg_count % 2 ^ 64 ≡ (c.stats.msg_count + takes_at j rs) % 2 ^ 64)
        × (stats.client_count ≡ c.stats.client_count)
  unfolding turn_at
  turn_at_counts j [] c = (omega arith, refl)
  turn_at_counts zero (r ∷ rs) c =
      counted (r.service.takes r.state) _ c.stats (r.service.counts r.state c)
  turn_at_counts (suc j) (r ∷ rs) c = turn_at_counts j rs c

  pub run_calls_counts :
      (rs : List Call) (c : Counters) (schedule : List ℕ)
      → let stats = (run_calls rs c schedule).1.stats in
        (stats.msg_count % 2 ^ 64
          ≡ (c.stats.msg_count + handled_by_all d (turns_of schedule) rs) % 2 ^ 64)
        × (stats.client_count ≡ c.stats.client_count)
  unfolding run_calls
  run_calls_counts rs c [] = (omega (arith, handled_by_all-none rs), refl)
  run_calls_counts rs c (j ∷ schedule) =
      let t = turn_at j rs c in
      let (up, same) = turn_at_counts j rs c in
      let (more, still) = run_calls_counts t.0 t.1 schedule in
      (omega (arith, more, up, handled_by_all-turn_at (turns_of schedule) j rs c), still ∙ same)

-- Calls of any services at one address that handle their streams in any order: each call is in the
-- state in which it would be had it run alone for as many turns, whatever the counters were then, and
-- the global message counter has gone up by the messages that each call handles alone in its turns,
-- modulo 2 ^ 64.
pub calls_apart :
    (rs : List Call) (c d : Counters) (schedule : List ℕ) (i : ℕ)
    → let done = run_calls rs c schedule in
      (get_elem? done.0 i ≡ map_call (alone d (turns_of schedule i)) (get_elem? rs i))
      × (done.1.stats.msg_count % 2 ^ 64
          ≡ (c.stats.msg_count + handled_by_all d (turns_of schedule) rs) % 2 ^ 64)
calls_apart rs c d schedule i =
    (get_elem?-run_calls d rs c schedule i, (run_calls_counts d rs c schedule).0)
