-- ===== src/Chunk/Unordered.antt =====
-- `ChunkRecords` of src-tauri/src/chunk.rs up to the order of its `HashMap`: an assembler is what the map
-- holds for each sensor path, however its entries are arranged.
use mathlib.Core.Quot
use mathlib.Core.Quot.{Quot, Quot-set}
use grpc_server_rust.Prelude.{◌≡◌, refl, sym, ap, ap₂, ◌∙◌, List, [], ◌∷◌, Str}
use grpc_server_rust.Chunk.{ChunkRecords, Delivery, entry}
use grpc_server_rust.Chunk.Run.{Message, add_message, add_message-delivery, run, local_step}
use grpc_server_rust.Chunk.Paths.{on_path, replies_on, entry-add_message_agree, run-on_path}

abbrev pub SameRecords : ChunkRecords → ChunkRecords → Type 0
SameRecords rs qs = (p : Str) → entry rs p ≡ entry qs p

abbrev pub Assembler : Type 0
Assembler = Quot SameRecords

abbrev pub of_records : ChunkRecords → Assembler
of_records = Quot.mk

abbrev pub as_assembler : {A : Type 0} → ChunkRecords × A → Assembler × A
as_assembler (rs, answer) = (of_records rs, answer)

pub add_message-SameRecords :
    (m : Message) (rs qs : ChunkRecords)
    → SameRecords rs qs
    → as_assembler (add_message rs m) ≡ as_assembler (add_message qs m)
add_message-SameRecords m rs qs h =
    ap₂ (λ t d. (t, d)) (Quot.sound (λ p. entry-add_message_agree rs qs m p (h p)))
      (add_message-delivery rs m
        ∙ ap (λ l. (local_step l m).1) (h m.sensor_path)
        ∙ sym (add_message-delivery qs m))

-- `add` on an assembler: the answer does not depend on how the map is arranged.
unfoldable pub receive : Message → Assembler → Assembler × Delivery
receive m =
    Quot.lift (hlevel Quot-set) (λ rs. as_assembler (add_message rs m)) (add_message-SameRecords m)

-- A stream of messages, with the deliveries by path.
unfoldable pub receive_all : List Message → Assembler → Assembler × List (Str × Delivery)
receive_all [] t = (t, [])
receive_all (m ∷ ms) t =
    let step = receive m t in
    let rest = receive_all ms step.0 in (rest.0, (m.sensor_path, step.1) ∷ rest.1)

receive_all-run :
    (ms : List Message) (rs : ChunkRecords)
    → receive_all ms (of_records rs) ≡ as_assembler (run rs ms)
unfolding receive_all receive run
receive_all-run [] rs = refl
receive_all-run (m ∷ ms) rs =
    let step = add_message rs m in
    ap (λ r. (r.0, (m.sensor_path, step.1) ∷ r.1)) (receive_all-run ms step.0)

module _ (ms ns : List Message) (same : (p : Str) → on_path p ms ≡ on_path p ns) where
  run_same_paths :
      (rs : ChunkRecords) (p : Str)
      → (replies_on p (run rs ms).1 ≡ replies_on p (run rs ns).1)
        × (entry (run rs ms).0 p ≡ entry (run rs ns).0 p)
  run_same_paths rs p =
      let left = run-on_path rs rs ms p refl in
      let right = run-on_path rs rs ns p refl in
      let middle = ap (run rs) (same p) in
      (
        left.0 ∙ ap (λ r. r.1) middle ∙ sym right.0,
        left.1 ∙ ap (λ r. entry r.0 p) middle ∙ sym right.1,
      )

-- Two streams that have, for each sensor path, the same messages of that path in the same order bring
-- an assembler to equal assemblers, and deliver the same for each path, however they interleave the
-- messages of different paths.
pub receive_interleaved :
    (ms ns : List Message)
    → ((p : Str) → on_path p ms ≡ on_path p ns)
    → (t : Assembler)
    → ((receive_all ms t).0 ≡ (receive_all ns t).0)
      × ((p : Str) → replies_on p (receive_all ms t).1 ≡ replies_on p (receive_all ns t).1)
receive_interleaved ms ns same =
    Quot.ind (λ t. hlevel Quot-set)
      λ rs.
        let both = run_same_paths ms ns same rs in
        rw (receive_all-run ms rs, receive_all-run ns rs)
          (Quot.sound (λ p. (both p).1), λ p. (both p).0)
