-- ===== src/Chunk/Conservation.antt =====
-- Bytes in flight: what is held back and what is handed out.
use grpc_server_rust.Prelude.{
  ℕ, ◌+◌, ◌≡◌, arith, Bool-cases, inl, inr, none, some, List, [], ◌∷◌, Bytes, Str, length, sum_of,
  length-concat, sum_of-append, unwrap_or,
}
use grpc_server_rust.Prelude.StrMap.{get, insert}
use grpc_server_rust.Chunk.{
  ChunkRecord, ChunkRecords, Delivery, new_record, add_fragment, matches, entry, add, add_to_list,
}
use grpc_server_rust.Chunk.Deliver.{deliver, place, add_to_list-deliver}
use grpc_server_rust.Chunk.Run.{Message, add_message, fresh}

abbrev pub record_bytes : ChunkRecord → ℕ
record_bytes r = sum_of length r.json_datas

abbrev pub list_bytes : List ChunkRecord → ℕ
list_bytes l = sum_of record_bytes l

-- The bytes that all records of all paths hold.
abbrev pub held_bytes : ChunkRecords → ℕ
held_bytes [] = 0
held_bytes ((k, l) ∷ rs) = list_bytes l + held_bytes rs

abbrev pub delivered_bytes : Delivery → ℕ
delivered_bytes none = 0
delivered_bytes (some (d, json)) = length json

record_bytes-add_fragment :
    (r : ChunkRecord) (nid : ℕ) (json : Bytes)
    → record_bytes (add_fragment r nid json) ≡ record_bytes r + length json
unfolding add_fragment
record_bytes-add_fragment r nid json = omega (arith, sum_of-append length r.json_datas (json ∷ []))

place_conserves :
    (rest : List ChunkRecord) (r : ChunkRecord)
    → list_bytes (place rest r).0 + delivered_bytes (place rest r).1
      ≡ list_bytes rest + record_bytes r
place_conserves rest r = ground (arith, length-concat r.json_datas)

deliver_conserves :
    (l : List ChunkRecord) (new : ChunkRecord) (nid : ℕ) (json : Bytes)
    → record_bytes new ≡ length json
    → list_bytes (deliver l new nid json).0 + delivered_bytes (deliver l new nid json).1
      ≡ list_bytes l + length json
unfolding deliver
deliver_conserves [] new nid json h = omega arith
deliver_conserves (r ∷ rest) new nid json h = elim (Bool-cases (matches r nid)) [
  | inl here ↦ rw here (
      omega (
        arith,
        place_conserves rest (add_fragment r nid json),
        record_bytes-add_fragment r nid json,
      ))
  | inr later ↦ rw later (omega (arith, deliver_conserves rest new nid json h))
]

held_bytes-insert :
    (rs : ChunkRecords) (k : Str) (l : List ChunkRecord)
    → held_bytes (insert rs k l) + list_bytes (entry rs k) ≡ held_bytes rs + list_bytes l
unfolding insert entry get
held_bytes-insert [] k l = omega arith
held_bytes-insert ((j, w) ∷ rs) k l = ground (arith, held_bytes-insert rs k l)

-- No byte is lost or made: what the records hold after a call, with what the call hands out, is
-- what they held before with the bytes of the fragment, on every branch.
pub add_conserves :
    (rs : ChunkRecords) (m : Message)
    → held_bytes (add_message rs m).0 + delivered_bytes (add_message rs m).1
      ≡ held_bytes rs + length m.json_data
unfolding add new_record
add_conserves rs m =
    let l = entry rs m.sensor_path in
    let nid = unwrap_or m.node_id 0 in
    let done = add_to_list l (fresh m) nid m.json_data in
    ground (
      arith,
      add_to_list-deliver l (fresh m) nid m.json_data,
      deliver_conserves l (fresh m) nid m.json_data (omega arith),
      held_bytes-insert rs m.sensor_path done.0,
    )
