-- ===== src/Chunk/Run.antt =====
-- A stream of messages through `ChunkRecords::add`, and what one message does to each path's list.
use grpc_server_rust.Prelude.{
  ℕ, ◌≡◌, arith, Bool, ◌&&◌, Option, some, List, [], ◌∷◌, Bytes, Str, str_eq, str_eq_iff, unwrap_or,
  is_none, if◌then◌else◌,
}
use grpc_server_rust.Prelude.Int.{ℤ, pos}
use grpc_server_rust.Prelude.StrMap.{get-insert}
use grpc_server_rust.Chunk.{
  ChunkRecord, ChunkRecords, Delivery, new_record, entry, add, add_to_list,
}
use grpc_server_rust.Chunk.Deliver.{deliver, add_to_list-deliver}

-- The arguments of one call of `add`.
pub record Message : Type 0 where
  pub device_msg : Bytes
  pub sensor_path : Str
  pub json_data : Bytes
  pub total_size : Option ℤ
  pub total_fragments : Option ℕ
  pub node_id : Option ℕ

abbrev pub add_message : ChunkRecords → Message → ChunkRecords × Delivery
add_message rs m =
    add rs m.device_msg m.sensor_path m.json_data m.total_size m.total_fragments m.node_id

-- The deliveries of a stream, each with the path of its message.
unfoldable pub run : ChunkRecords → List Message → ChunkRecords × List (Str × Delivery)
run rs [] = (rs, [])
run rs (m ∷ ms) =
    let step = add_message rs m in
    let rest = run step.0 ms in (rest.0, (m.sensor_path, step.1) ∷ rest.1)

abbrev pub is_whole : Message → Bool
is_whole m = is_none m.total_size && is_none m.total_fragments

abbrev pub fresh : Message → ChunkRecord
fresh m =
    new_record m.device_msg m.sensor_path (unwrap_or m.total_size (pos 0))
      (unwrap_or m.total_fragments 0) (unwrap_or m.node_id 0) m.json_data

-- What a message does to the list of its own path.
unfoldable pub local_step : List ChunkRecord → Message → List ChunkRecord × Delivery
local_step l m =
    if is_whole m
    then (l, some (m.device_msg, m.json_data))
    else deliver l (fresh m) (unwrap_or m.node_id 0) m.json_data

-- The delivery of a message depends on the list of its own path only.
pub add_message-delivery :
    (rs : ChunkRecords) (m : Message)
    → (add_message rs m).1 ≡ (local_step (entry rs m.sensor_path) m).1
unfolding local_step add
add_message-delivery rs m = ground (
  arith,
  add_to_list-deliver (entry rs m.sensor_path) (fresh m) (unwrap_or m.node_id 0) m.json_data,
)

-- The list of the message's path changes by `local_step`, and every other list stays.
pub entry-add_message :
    (rs : ChunkRecords) (m : Message) (q : Str)
    → entry (add_message rs m).0 q
      ≡ (if str_eq m.sensor_path q then (local_step (entry rs m.sensor_path) m).0 else entry rs q)
unfolding local_step add entry
entry-add_message rs m q = ground (
  arith,
  add_to_list-deliver (entry rs m.sensor_path) (fresh m) (unwrap_or m.node_id 0) m.json_data,
  get-insert rs m.sensor_path q
      (add_to_list (entry rs m.sensor_path) (fresh m) (unwrap_or m.node_id 0) m.json_data).0,
  str_eq_iff m.sensor_path q,
)
