-- ===== src/Chunk.antt =====
-- src-tauri/src/chunk.rs: assembly of fragmented gRPC messages. A `Vec` is a list, and the
-- `HashMap` of sensor paths is a `StrMap`. Node ids are u64 and wrap, as in the release profile.
pub mod Deliver
pub mod Run
pub mod Assembly
pub mod Conservation
pub mod Stalled
pub mod Paths
pub mod Unordered
use grpc_server_rust.Prelude.{
  ℕ, suc, ◌+◌, ◌%◌, ◌^◌, Bool, Option, none, some, List, [], ◌∷◌, ◌++◌, Bytes, Str, ◌==◌, ◌&&◌,
  if◌then◌else◌, is_none, unwrap_or, length, get_elem?, remove_at, modify, concat,
}
use grpc_server_rust.Prelude.Int.{ℤ, pos}
use grpc_server_rust.Prelude.StrMap
use grpc_server_rust.Prelude.StrMap.{StrMap}

pub record ChunkRecord : Type 0 where
  pub device_msg : Bytes
  pub sensor_path : Str
  pub total_size : ℤ
  pub total_fragments : ℕ
  pub last_node_id : ℕ
  pub json_datas : List Bytes

unfoldable pub new_record : Bytes → Str → ℤ → ℕ → ℕ → Bytes → ChunkRecord
new_record device_msg sensor_path total_size total_fragments node_id json_data = record {
  device_msg = device_msg;
  sensor_path = sensor_path;
  total_size = total_size;
  total_fragments = total_fragments;
  last_node_id = node_id;
  json_datas = json_data ∷ [];
}

-- `self.last_node_id + 1 == node_id` on u64
unfoldable pub matches : ChunkRecord → ℕ → Bool
matches r node_id = (r.last_node_id + 1) % 2 ^ 64 == node_id

unfoldable pub is_complete : ChunkRecord → Bool
is_complete r = r.total_fragments == length r.json_datas

unfoldable pub add_fragment : ChunkRecord → ℕ → Bytes → ChunkRecord
add_fragment r node_id json_data = record r {
  last_node_id = node_id;
  json_datas = r.json_datas ++ json_data ∷ [];
}

-- The loop of `extend_from_slice` over the fragments, from the bytes merged so far.
merge_loop : Bytes → List Bytes → Bytes
merge_loop merged [] = merged
merge_loop merged (fragment ∷ rest) = merge_loop (merged ++ fragment) rest

unfoldable pub merge_json : ChunkRecord → Bytes
unfolding merge_loop
merge_json r = merge_loop [] r.json_datas

abbrev next_index : Option ℕ → Option ℕ
next_index none = none
next_index (some i) = some (suc i)

-- `record_list.iter().position(|r| r.matches(nid))`
unfoldable pub position : ℕ → List ChunkRecord → Option ℕ
position nid [] = none
position nid (r ∷ rest) = if matches r nid then some 0 else next_index (position nid rest)

abbrev pub ChunkRecords : Type 0
ChunkRecords = StrMap (List ChunkRecord)

abbrev pub new : ChunkRecords
new = []

-- What completes a record: its device message and its merged fragments.
abbrev pub Delivery : Type 0
Delivery = Option (Bytes × Bytes)

-- The test after a fragment was added at `idx`. An index out of range would panic; `position`
-- gives none.
finish_at : List ChunkRecord → ℕ → List ChunkRecord × Delivery
finish_at record_list idx = elim (get_elem? record_list idx) [
  | none ↦ (record_list, none)
  | some r ↦
      if is_complete r
      then (remove_at record_list idx, some (r.device_msg, merge_json r))
      else (record_list, none)
]

-- `if let Some(idx) = matched_index { … } else { … }`; `fresh` is the record to start.
add_at : Option ℕ → List ChunkRecord → ChunkRecord → ℕ → Bytes → List ChunkRecord × Delivery
add_at (some idx) record_list fresh nid json_data =
    finish_at (modify record_list idx (λ r. add_fragment r nid json_data)) idx
add_at none record_list fresh nid json_data = (record_list ++ fresh ∷ [], none)

-- The part of `add` below the lookup of the path's list.
unfoldable pub add_to_list :
    List ChunkRecord → ChunkRecord → ℕ → Bytes → List ChunkRecord × Delivery
unfolding finish_at add_at
add_to_list record_list fresh nid json_data =
    add_at (position nid record_list) record_list fresh nid json_data

-- `self.records.entry(path).or_default()`
unfoldable pub entry : ChunkRecords → Str → List ChunkRecord
entry records path = unwrap_or (StrMap.get records path) []

unfoldable pub add :
    ChunkRecords → Bytes → Str → Bytes → Option ℤ → Option ℕ → Option ℕ → ChunkRecords × Delivery
add records device_msg sensor_path json_data total_size total_fragments node_id =
    let ts = unwrap_or total_size (pos 0) in
    let tf = unwrap_or total_fragments 0 in
    let nid = unwrap_or node_id 0 in
    let fresh = new_record device_msg sensor_path ts tf nid json_data in
    let done = add_to_list (entry records sensor_path) fresh nid json_data in
    if is_none total_size && is_none total_fragments
    then (records, some (device_msg, json_data))
    else (StrMap.insert records sensor_path done.0, done.1)
