-- ===== src/Calls/Taken.antt =====
-- How many messages a call of src-tauri/src/dialout takes from its stream, when it runs to its answer.
use grpc_server_rust.Prelude.{
  ℕ, zero, suc, ◌+◌, ◌<◌, ◌≡◌, refl, ap, arith, Option, none, some, List, [], ◌∷◌, length,
  if◌then◌else◌,
}
use grpc_server_rust.Stream.{Item}
use grpc_server_rust.Calls.{Counters, handled_alone}
use grpc_server_rust.Calls.Loop.{
  CallLoop, in_state, is_message, takes_next, next_item, next_item-apart, stream_call, accepted,
}

module _ {Full Variables S M A : Type 0} (L : CallLoop Full Variables S M A) where
  -- Nothing is taken behind the item that brings the answer.
  abbrev pub unless_answered : Option A → ℕ → ℕ
  unless_answered none n = n
  unless_answered (some a) n = 0

  unfoldable pub messages_taken : Full → List (Item S M) → ℕ
  messages_taken s [] = 0
  messages_taken s (x ∷ items) =
      let t = L.on_item s x in
      let rest = messages_taken t.0 items in
      (if is_message x then 1 else 0) + unless_answered t.1 rest

  handled_alone-answered :
      (d : Counters) (n : ℕ) (l : Variables) (items : List (Item S M)) (a : A)
      → handled_alone d n (stream_call L (in_state l items (some a))) ≡ 0
  unfolding handled_alone
  handled_alone-answered d zero l items a = refl
  handled_alone-answered d (suc n) l items a = omega (arith, handled_alone-answered d n l items a)

  handled_alone-turn :
      (d : Counters) (n : ℕ) (s : Full) (items : List (Item S M))
      → handled_alone d (suc n) (accepted L s items)
        ≡ (if takes_next {A = A} none items then 1 else 0)
          + handled_alone d n (stream_call L (next_item L s items).0)
  unfolding handled_alone
  handled_alone-turn d n s items =
      let met = L.with_counters (L.variables_of s) d in
      ap
        (λ t.
          (if takes_next {A = A} none items then 1 else 0) + handled_alone d n (stream_call L t))
        (next_item-apart L met s items (L.variables_of-with_counters (L.variables_of s) d))

  handled_alone-go_on :
      (d : Counters) (n : ℕ) (s : Full) (items : List (Item S M)) (o : Option A)
      → ((t : Full) → handled_alone d n (accepted L t items) ≡ messages_taken t items)
      → handled_alone d n (stream_call L (in_state (L.variables_of s) items o))
        ≡ unless_answered o (messages_taken s items)
  handled_alone-go_on d n s items none ih = ih s
  handled_alone-go_on d n s items (some a) ih =
      handled_alone-answered d n (L.variables_of s) items a

  pub handled_alone-messages_taken :
      (d : Counters) (n : ℕ) (s : Full) (items : List (Item S M))
      → length items < n
      → handled_alone d n (accepted L s items) ≡ messages_taken s items
  unfolding messages_taken
  handled_alone-messages_taken d zero s items h = absurd (omega arith)
  handled_alone-messages_taken d (suc n) s [] h =
      let t = L.on_end s in
      omega
        (arith, handled_alone-turn d n s [], handled_alone-answered d n (L.variables_of t.0) [] t.1)
  handled_alone-messages_taken d (suc n) s (x ∷ items) h =
      let t = L.on_item s x in
      omega (
        arith,
        handled_alone-turn d n s (x ∷ items),
        handled_alone-go_on d n t.0 items t.1
            (λ s'. handled_alone-messages_taken d n s' items (omega arith)),
      )
