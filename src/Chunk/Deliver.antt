-- ===== src/Chunk/Deliver.antt =====
-- The index arithmetic of `ChunkRecords::add` against one walk along the list of a path.
use grpc_server_rust.Prelude.{
  ℕ, suc, ◌≡◌, refl, ap, ◌∙◌, sym, arith, true, false, Bool-cases, inl, inr, Option, none, some,
  List, [], ◌∷◌, ◌++◌, append_assoc, append-nil, concat, Bytes, modify, if◌then◌else◌,
}
use grpc_server_rust.Chunk.{
  ChunkRecord, Delivery, matches, is_complete, add_fragment, merge_loop, merge_json, position,
  finish_at, add_at, next_index, add_to_list,
}

-- The first record that waits for `nid` takes the fragment, and leaves the list when it is
-- complete; where none waits, the fresh record goes to the end.
abbrev pub place : List ChunkRecord → ChunkRecord → List ChunkRecord × Delivery
place rest r =
    if is_complete r then (rest, some (r.device_msg, concat r.json_datas)) else (r ∷ rest, none)

abbrev pub keep : ChunkRecord → List ChunkRecord × Delivery → List ChunkRecord × Delivery
keep r p = (r ∷ p.0, p.1)

unfoldable pub deliver : List ChunkRecord → ChunkRecord → ℕ → Bytes → List ChunkRecord × Delivery
deliver [] fresh nid json = (fresh ∷ [], none)
deliver (r ∷ rest) fresh nid json =
    let later = deliver rest fresh nid json in
    if matches r nid then place rest (add_fragment r nid json) else keep r later

merge_loop-concat : (merged : Bytes) (fs : List Bytes) → merge_loop merged fs ≡ merged ++ concat fs
unfolding merge_loop
merge_loop-concat merged [] = sym (append-nil merged)
merge_loop-concat merged (f ∷ fs) =
    merge_loop-concat (merged ++ f) fs ∙ append_assoc merged f (concat fs)

-- Merging is the concatenation of the fragments in the order of arrival.
pub merge_json-concat : (r : ChunkRecord) → merge_json r ≡ concat r.json_datas
unfolding merge_json
merge_json-concat r = merge_loop-concat [] r.json_datas

finish_at-suc :
    (r : ChunkRecord) (l : List ChunkRecord) (i : ℕ)
    → finish_at (r ∷ l) (suc i) ≡ keep r (finish_at l i)
unfolding finish_at
finish_at-suc r l i = ground arith

add_at-suc :
    (o : Option ℕ) (r : ChunkRecord) (l : List ChunkRecord) (fresh : ChunkRecord) (nid : ℕ)
    (json : Bytes)
    → add_at (next_index o) (r ∷ l) fresh nid json ≡ keep r (add_at o l fresh nid json)
unfolding add_at
add_at-suc none r l fresh nid json = refl
add_at-suc (some i) r l fresh nid json =
    finish_at-suc r (modify l i (λ q. add_fragment q nid json)) i

add_to_list-keep :
    (r : ChunkRecord) (l : List ChunkRecord) (fresh : ChunkRecord) (nid : ℕ) (json : Bytes)
    → matches r nid ≡ false
    → add_to_list (r ∷ l) fresh nid json ≡ keep r (add_to_list l fresh nid json)
add_to_list-keep r l fresh nid json h =
    unfold add_to_list position in rw (position, h) (add_at-suc (position nid l) r l fresh nid json)

add_to_list-place :
    (r : ChunkRecord) (l : List ChunkRecord) (fresh : ChunkRecord) (nid : ℕ) (json : Bytes)
    → matches r nid ≡ true
    → add_to_list (r ∷ l) fresh nid json ≡ place l (add_fragment r nid json)
unfolding add_to_list position finish_at
add_to_list-place r l fresh nid json h = ground (arith, merge_json-concat (add_fragment r nid json))

-- The index-based `add` does on the list of a path exactly what the walk `deliver` does.
pub add_to_list-deliver :
    (l : List ChunkRecord) (fresh : ChunkRecord) (nid : ℕ) (json : Bytes)
    → add_to_list l fresh nid json ≡ deliver l fresh nid json
unfolding deliver
add_to_list-deliver [] fresh nid json = unfold add_to_list position in refl
add_to_list-deliver (r ∷ l) fresh nid json = elim (Bool-cases (matches r nid)) [
  | inl h ↦ rw h (add_to_list-place r l fresh nid json h)
  | inr h ↦
      rw h
        (add_to_list-keep r l fresh nid json h ∙ ap (keep r) (add_to_list-deliver l fresh nid json))
]
