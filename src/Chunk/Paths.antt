-- ===== src/Chunk/Paths.antt =====
-- Fragments of different sensor paths may arrive in any order.
use grpc_server_rust.Prelude.{
  ◌≡◌, refl, ◌∙◌, arith, true, false, Bool-cases, inl, inr, List, [], ◌∷◌, Str, str_eq, str_eq_iff,
  retain,
}
use grpc_server_rust.Chunk.{ChunkRecords, Delivery, entry}
use grpc_server_rust.Chunk.Run.{Message, run, add_message, add_message-delivery, entry-add_message}

abbrev pub on_path : Str → List Message → List Message
on_path p ms = retain (λ m. str_eq m.sensor_path p) ms

abbrev pub replies_on : Str → List (Str × Delivery) → List (Str × Delivery)
replies_on p rs = retain (λ r. str_eq r.0 p) rs

module _ (rs qs : ChunkRecords) (m : Message) (p : Str) (h : entry rs p ≡ entry qs p) where
  -- A message keeps two states in agreement on a path, whether it is of that path or not.
  pub entry-add_message_agree : entry (add_message rs m).0 p ≡ entry (add_message qs m).0 p
  entry-add_message_agree =
      ground (arith, entry-add_message rs m p, entry-add_message qs m p, str_eq_iff m.sensor_path p)

  delivery_agree : str_eq m.sensor_path p ≡ true → (add_message rs m).1 ≡ (add_message qs m).1
  delivery_agree same =
      ground
        (arith, add_message-delivery rs m, add_message-delivery qs m, str_eq_iff m.sensor_path p)

entry-add_message_other :
    (rs : ChunkRecords) (m : Message) (p : Str)
    → str_eq m.sensor_path p ≡ false
    → entry (add_message rs m).0 p ≡ entry rs p
entry-add_message_other rs m p other = rw (entry-add_message, other)

-- The deliveries of one path are those of its own messages alone: whatever the messages of other
-- paths are and however they are interleaved, a path sees what it would see from any start that
-- holds the same records for it, and it ends with the same records.
pub run-on_path :
    (rs qs : ChunkRecords) (ms : List Message) (p : Str)
    → entry rs p ≡ entry qs p
    → (replies_on p (run rs ms).1 ≡ (run qs (on_path p ms)).1)
      × (entry (run rs ms).0 p ≡ entry (run qs (on_path p ms)).0 p)
unfolding run
run-on_path rs qs [] p h = (refl, h)
run-on_path rs qs (m ∷ ms) p h = elim (Bool-cases (str_eq m.sensor_path p)) [
  | inl same ↦
      let ih =
        run-on_path (add_message rs m).0 (add_message qs m).0 ms p
          (entry-add_message_agree rs qs m p h) in
      rw same (cc (ih.0, delivery_agree rs qs m p h same), ih.1)
  | inr other ↦
      rw other (run-on_path (add_message rs m).0 qs ms p (entry-add_message_other rs m p other ∙ h))
]
