-- ===== src/Calls/Loop.antt =====
-- The loop of a call over its stream, as the services of src-tauri/src/dialout have it, and the call that
-- runs it among other calls: its own variables, what its stream still holds, and its answer once it has
-- one.
use grpc_server_rust.Prelude.{
  ℕ, zero, suc, ◌<◌, ◌≡◌, refl, sym, ap, ◌∙◌, arith, Bool, true, false, Option, none, some, List,
  [], ◌∷◌, length, get_elem?, if◌then◌else◌,
}
use grpc_server_rust.Stream.{Item, message, fault}
use grpc_server_rust.Models.Stats.{incr_msg_count}
use grpc_server_rust.Calls.{Counters, CallService, Call, alone, run_calls, turns_of}
use grpc_server_rust.Calls.Apart.{map_call, calls_apart}

abbrev pub is_message : {S M : Type 0} → Item S M → Bool
is_message (message m) = true
is_message (fault e) = false

-- The variables of a running call hold the counters as it finds them (`Full`), and its own (`Variables`).
-- An item, or the end of the stream, changes them and may bring the answer. What a service promises is
-- that the counters decide nothing, and that a message is counted once and nothing else is.
pub record CallLoop (Full Variables S M A : Type 0) : Type 0 where
  pub variables_of : Full → Variables
  pub counters_of : Full → Counters
  pub with_counters : Variables → Counters → Full
  pub on_item : Full → Item S M → Full × Option A
  pub on_end : Full → Full × A
  pub variables_of-with_counters :
      (l : Variables) (c : Counters) → variables_of (with_counters l c) ≡ l
  pub counters_of-with_counters :
      (l : Variables) (c : Counters) → counters_of (with_counters l c) ≡ c
  pub on_item-apart :
      (s t : Full) (x : Item S M)
      → variables_of s ≡ variables_of t
      → (variables_of (on_item s x).0 ≡ variables_of (on_item t x).0)
        × ((on_item s x).1 ≡ (on_item t x).1)
  pub on_end-apart :
      (s t : Full)
      → variables_of s ≡ variables_of t
      → (variables_of (on_end s).0 ≡ variables_of (on_end t).0) × ((on_end s).1 ≡ (on_end t).1)
  pub on_item_counts :
      (s : Full) (x : Item S M)
      → (counters_of (on_item s x).0).stats
        ≡ (if is_message x then incr_msg_count (counters_of s).stats else (counters_of s).stats)
  pub on_end_counts : (s : Full) → (counters_of (on_end s).0).stats ≡ (counters_of s).stats

pub record CallState (Variables S M A : Type 0) : Type 0 where
  pub local : Variables
  pub rest : List (Item S M)
  pub answer : Option A

abbrev pub in_state :
    {Variables S M A : Type 0} → Variables → List (Item S M) → Option A → CallState Variables S M A
in_state l rest answer = record { local = l; rest = rest; answer = answer }

-- Whether a call without an answer finds a message next.
abbrev pub takes_next : {S M A : Type 0} → Option A → List (Item S M) → Bool
takes_next (some a) items = false
takes_next none [] = false
takes_next none (x ∷ items) = is_message x

module _ {Full Variables S M A : Type 0} (L : CallLoop Full Variables S M A) where
  abbrev pub next_item : Full → List (Item S M) → CallState Variables S M A × Counters
  next_item s [] =
      let t = L.on_end s in (in_state (L.variables_of t.0) [] (some t.1), L.counters_of t.0)
  next_item s (x ∷ items) =
      let t = L.on_item s x in (in_state (L.variables_of t.0) items t.1, L.counters_of t.0)

  abbrev pub turn_of :
      Option A → CallState Variables S M A → Counters → CallState Variables S M A × Counters
  turn_of none s c = next_item (L.with_counters s.local c) s.rest
  turn_of (some a) s c = (s, c)

  pub next_item-apart :
      (s t : Full) (items : List (Item S M))
      → L.variables_of s ≡ L.variables_of t
      → (next_item s items).0 ≡ (next_item t items).0
  next_item-apart s t [] h = let (same, answer) = L.on_end-apart s t h in cc (same, answer)
  next_item-apart s t (x ∷ items) h =
      let (same, answer) = L.on_item-apart s t x h in cc (same, answer)

  next_item_counts :
      (s : Full) (items : List (Item S M))
      → (next_item s items).1.stats ≡ (
          if takes_next {A = A} none items
          then incr_msg_count (L.counters_of s).stats
          else (L.counters_of s).stats)
  next_item_counts s [] = L.on_end_counts s
  next_item_counts s (x ∷ items) = L.on_item_counts s x

  with_counters_same :
      (l : Variables) (c d : Counters)
      → L.variables_of (L.with_counters l c) ≡ L.variables_of (L.with_counters l d)
  with_counters_same l c d =
      L.variables_of-with_counters l c ∙ sym (L.variables_of-with_counters l d)

  pub turn_of-apart :
      (a : Option A) (s : CallState Variables S M A) (c d : Counters)
      → (turn_of a s c).0 ≡ (turn_of a s d).0
  turn_of-apart none s c d =
      next_item-apart (L.with_counters s.local c) (L.with_counters s.local d) s.rest
        (with_counters_same s.local c d)
  turn_of-apart (some a) s c d = refl

  pub turn_of_counts :
      (a : Option A) (s : CallState Variables S M A) (c : Counters)
      → (turn_of a s c).1.stats ≡ (if takes_next a s.rest then incr_msg_count c.stats else c.stats)
  turn_of_counts none s c =
      next_item_counts (L.with_counters s.local c) s.rest
      ∙ ap (λ d. if takes_next {A = A} none s.rest then incr_msg_count d.stats else d.stats)
          (L.counters_of-with_counters s.local c)
  turn_of_counts (some a) s c = refl

  abbrev pub stream_service : CallService (CallState Variables S M A)
  stream_service = record {
    turn = λ s c. turn_of s.answer s c;
    takes = λ s. takes_next s.answer s.rest;
    apart = λ s c d. turn_of-apart s.answer s c d;
    counts = λ s c. turn_of_counts s.answer s c;
  }

  abbrev pub stream_call : CallState Variables S M A → Call
  stream_call s = record { State = CallState Variables S M A; service = stream_service; state = s }

  -- The loop of one call with no other.
  abbrev pub go_on : Full → Option A → (Full → Full × A) → Full × A
  go_on s none f = f s
  go_on s (some a) f = (s, a)

  unfoldable pub loop : Full → List (Item S M) → Full × A
  loop s [] = L.on_end s
  loop s (x ∷ items) = let t = L.on_item s x in go_on t.0 t.1 (λ s'. loop s' items)

  -- The variables of a call that has come to its answer, with what is left of the stream.
  abbrev pub finished : Full × A → List (Item S M) → CallState Variables S M A
  finished (s, a) rest = in_state (L.variables_of s) rest (some a)

  alone-answered :
      (d : Counters) (n : ℕ) (l : Variables) (items : List (Item S M)) (a : A)
      → alone d n (stream_call (in_state l items (some a)))
        ≡ stream_call (in_state l items (some a))
  unfolding alone
  alone-answered d zero l items a = refl
  alone-answered d (suc n) l items a = alone-answered d n l items a

  -- What `n` turns make of a call is what `r` says, up to the rest of the stream.
  abbrev Comes : Counters → ℕ → CallState Variables S M A → Full × A → Type 1
  Comes d n s r =
      (rest : List (Item S M)) × (alone d n (stream_call s) ≡ stream_call (finished r rest))

  Comes-turn :
      (d : Counters) (n : ℕ) (s : Full) (items : List (Item S M)) (r : Full × A)
      → Comes d n (next_item s items).0 r
      → Comes d (suc n) (in_state (L.variables_of s) items none) r
  unfolding alone
  Comes-turn d n s items r (rest, done) =
      let met = L.with_counters (L.variables_of s) d in
      (
        rest,
        ap (λ t. alone d n (stream_call t))
              (next_item-apart met s items (L.variables_of-with_counters (L.variables_of s) d))
            ∙ done,
      )

  Comes-go_on :
      (d : Counters) (n : ℕ) (s : Full) (items : List (Item S M)) (o : Option A)
      → ((t : Full) → Comes d n (in_state (L.variables_of t) items none) (loop t items))
      → Comes d n (in_state (L.variables_of s) items o) (go_on s o (λ t. loop t items))
  Comes-go_on d n s items none ih = ih s
  Comes-go_on d n s items (some a) ih = (items, alone-answered d n (L.variables_of s) items a)

  -- Alone and with enough turns, a call comes to what its loop says.
  Comes-loop :
      (d : Counters) (n : ℕ) (s : Full) (items : List (Item S M))
      → length items < n
      → Comes d n (in_state (L.variables_of s) items none) (loop s items)
  unfolding loop
  Comes-loop d zero s items h = absurd (omega arith)
  Comes-loop d (suc n) s [] h =
      let t = L.on_end s in
      Comes-turn d n s [] t ([], alone-answered d n (L.variables_of t.0) [] t.1)
  Comes-loop d (suc n) s (x ∷ items) h =
      let t = L.on_item s x in
      Comes-turn d n s (x ∷ items) (go_on t.0 t.1 (λ s'. loop s' items))
        (Comes-go_on d n t.0 items t.1 (λ s'. Comes-loop d n s' items (omega arith)))

  -- A call that has been accepted, with the variables that its service gives it.
  abbrev pub accepted : Full → List (Item S M) → Call
  accepted s items = stream_call (in_state (L.variables_of s) items none)

  -- Among any calls, a call that gets more turns than its stream has items comes to what its loop says
  -- of the stream with no other call.
  pub loop_among_calls :
      (rs : List Call) (c : Counters) (schedule : List ℕ) (i : ℕ) (s : Full)
      (items : List (Item S M))
      → get_elem? rs i ≡ some (accepted s items)
      → length items < turns_of schedule i
      → (rest : List (Item S M)) × (get_elem? (run_calls rs c schedule).0 i
          ≡ some (stream_call (finished (loop s items) rest)))
  loop_among_calls rs c schedule i s items here enough =
      let (rest, done) = Comes-loop c (turns_of schedule i) s items enough in
      (
        rest,
        (calls_apart rs c c schedule i).0
            ∙ ap (map_call (alone c (turns_of schedule i))) here
            ∙ ap some done,
      )
