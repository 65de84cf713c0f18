-- ===== src/Chunk/Stalled.antt =====
-- Messages that are announced as one fragment or none.
use grpc_server_rust.Prelude.{
  ℕ, ◌≤◌, ◌≡◌, refl, arith, false, Bool-cases, inl, inr, none, List, [], ◌∷◌, Bytes, Str, str_eq,
  length, length-append, All, unwrap_or,
}
use grpc_server_rust.Prelude.StrMap.{get, insert}
use grpc_server_rust.Chunk.{
  ChunkRecord, ChunkRecords, new_record, add_fragment, is_complete, matches, entry, add,
}
use grpc_server_rust.Chunk.Deliver.{deliver, add_to_list-deliver}
use grpc_server_rust.Chunk.Run.{Message, run, add_message, is_whole, fresh}

-- The record holds as many fragments as it waits for, or more.
abbrev pub IsStalled : ChunkRecord → Type 0
IsStalled r = (r.total_fragments ≤ length r.json_datas) × (1 ≤ length r.json_datas)

abbrev pub AllStalled : ChunkRecords → Type 0
AllStalled rs = All (λ e. All IsStalled e.1) rs

-- A chunked message that is announced as at most one fragment.
abbrev pub IsSingle : Message → Type 0
IsSingle m = (is_whole m ≡ false) × (unwrap_or m.total_fragments 0 ≤ 1)

add_fragment_stays :
    (r : ChunkRecord) (nid : ℕ) (json : Bytes)
    → IsStalled r
    → (is_complete (add_fragment r nid json) ≡ false) × IsStalled (add_fragment r nid json)
unfolding add_fragment is_complete
add_fragment_stays r nid json h = ground (arith, length-append r.json_datas (json ∷ []))

deliver_stays :
    (l : List ChunkRecord) (new : ChunkRecord) (nid : ℕ) (json : Bytes)
    → All IsStalled l
    → IsStalled new
    → All IsStalled (deliver l new nid json).0 × ((deliver l new nid json).1 ≡ none)
unfolding deliver
deliver_stays [] new nid json hl hn = ((hn, tt), refl)
deliver_stays (r ∷ l) new nid json hl hn = elim (Bool-cases (matches r nid)) [
  | inl here ↦
      let (not_done, still) = add_fragment_stays r nid json hl.0 in
      rw (here, not_done) ((still, hl.1), refl)
  | inr later ↦ let ih = deliver_stays l new nid json hl.1 hn in rw later ((hl.0, ih.0), ih.1)
]

AllStalled-entry : (rs : ChunkRecords) (p : Str) → AllStalled rs → All IsStalled (entry rs p)
unfolding entry get
AllStalled-entry [] p h = tt
AllStalled-entry ((k, l) ∷ rs) p h = elim (Bool-cases (str_eq k p)) [
  | inl e ↦ rw e h.0
  | inr e ↦ rw e (AllStalled-entry rs p h.1)
]

AllStalled-insert :
    (rs : ChunkRecords) (p : Str) (l : List ChunkRecord)
    → AllStalled rs
    → All IsStalled l
    → AllStalled (insert rs p l)
unfolding insert
AllStalled-insert [] p l h hl = (hl, tt)
AllStalled-insert ((k, w) ∷ rs) p l h hl = elim (Bool-cases (str_eq k p)) [
  | inl e ↦ rw e (hl, h.1)
  | inr e ↦ rw e (h.0, AllStalled-insert rs p l h.1 hl)
]

fresh-IsStalled : (m : Message) → IsSingle m → IsStalled (fresh m)
unfolding new_record
fresh-IsStalled m h = omega arith

add_message-AllStalled :
    (rs : ChunkRecords) (m : Message)
    → AllStalled rs
    → IsSingle m
    → AllStalled (add_message rs m).0 × ((add_message rs m).1 ≡ none)
unfolding add
add_message-AllStalled rs m h single =
    let l = entry rs m.sensor_path in
    let nid = unwrap_or m.node_id 0 in
    let stays =
      deliver_stays l (fresh m) nid m.json_data (AllStalled-entry rs m.sensor_path h)
        (fresh-IsStalled m single) in
    rw (single.0, add_to_list-deliver)
      (
        AllStalled-insert rs m.sensor_path (deliver l (fresh m) nid m.json_data).0 h stays.0,
        stays.1,
      )

-- From records that are all stalled, as none are at the start, a stream of chunked messages that
-- are each announced as at most one fragment delivers nothing, however long it is.
pub run_single_delivers_nothing :
    (rs : ChunkRecords) (ms : List Message)
    → AllStalled rs
    → All IsSingle ms
    → All (λ r. r.1 ≡ none) (run rs ms).1
unfolding run
run_single_delivers_nothing rs [] h hs = tt
run_single_delivers_nothing rs (m ∷ ms) h hs =
    let (stays, nothing) = add_message-AllStalled rs m h hs.0 in
    (nothing, run_single_delivers_nothing (add_message rs m).0 ms stays hs.1)
