-- ===== src/Chunk/Assembly.antt =====
-- How fragments that arrive in order are put together.
use grpc_server_rust.Prelude.{
  ℕ, suc, ◌+◌, ◌%◌, ◌^◌, ◌≤◌, ◌<◌, ◌≡◌, refl, sym, ap, ◌∙◌, arith, true, false, ◌⊎◌, inl, inr, none,
  some, List, [], ◌∷◌, ◌++◌, append_assoc, append-nil, Bytes, Str, str_eq_refl, length,
  length-append, All, concat, concat-append, replicate, ◌==◌,
}
use grpc_server_rust.Prelude.Int.{ℤ}
use grpc_server_rust.Chunk.{
  ChunkRecord, ChunkRecords, Delivery, new_record, add_fragment, is_complete, matches, entry,
}
use grpc_server_rust.Chunk.Deliver.{deliver, place}
use grpc_server_rust.Chunk.Run.{
  Message, run, add_message, local_step, add_message-delivery, entry-add_message,
}

-- The node id that a record waits for.
abbrev pub next_id : ChunkRecord → ℕ
next_id r = (r.last_node_id + 1) % 2 ^ 64

-- No record waits for any of the `n` node ids from `start` on.
abbrev pub IsQuiet : ℕ → ℕ → List ChunkRecord → Type 0
IsQuiet start n l = All (λ r. (next_id r < start) ⊎ (start + n ≤ next_id r)) l

-- A whole text in fragments, announced as `total` of them and numbered from `start` on.
abbrev pub numbered : Bytes → Str → ℤ → ℕ → ℕ → List Bytes → List Message
numbered device path size total start [] = []
numbered device path size total start (f ∷ fs) =
    record {
      device_msg = device;
      sensor_path = path;
      json_data = f;
      total_size = some size;
      total_fragments = some total;
      node_id = some start;
    }
    ∷ numbered device path size total (start + 1) fs

-- What the run over `n + 1` fragments answers: nothing `n` times, and then the delivery.
abbrev pub answers : Str → ℕ → Bytes × Bytes → List (Str × Delivery)
answers path n d = replicate n (path, none) ++ (path, some d) ∷ []

deliver_quiet :
    (l ys : List ChunkRecord) (new : ChunkRecord) (nid n : ℕ) (json : Bytes)
    → IsQuiet nid (suc n) l
    → deliver (l ++ ys) new nid json
      ≡ (l ++ (deliver ys new nid json).0, (deliver ys new nid json).1)
unfolding deliver matches
deliver_quiet [] ys new nid n json h = refl
deliver_quiet (r ∷ l) ys new nid n json h =
    let silent : (next_id r == nid) ≡ false = ground (arith, h.0) in
    rw (silent, deliver_quiet l ys new nid n json h.1)

IsQuiet-tail :
    (start n : ℕ) (l : List ChunkRecord) → IsQuiet start (suc n) l → IsQuiet (start + 1) n l
IsQuiet-tail start n [] h = tt
IsQuiet-tail start n (r ∷ l) h =
    (elim h.0 [ inl a ↦ inl (omega arith) | inr b ↦ inr (omega arith) ], IsQuiet-tail start n l h.1)

module _ (device : Bytes) (path : Str) (size : ℤ) (total start : ℕ) (f : Bytes) where
  abbrev message : Message
  message = record {
    device_msg = device;
    sensor_path = path;
    json_data = f;
    total_size = some size;
    total_fragments = some total;
    node_id = some start;
  }

  -- The first fragment opens a record at the end of the list.
  local_step_first :
      (l : List ChunkRecord) (n : ℕ)
      → IsQuiet start (suc n) l
      → local_step l message ≡ (l ++ new_record device path size total start f ∷ [], none)
  unfolding local_step
  local_step_first l n quiet =
      let new = new_record device path size total start f in
      ap (λ t. deliver t new start f) (sym (append-nil l))
      ∙ deliver_quiet l [] new start n f quiet
      ∙ (unfold deliver in refl)

  -- A later one goes to that record.
  local_step_later :
      (l : List ChunkRecord) (r : ChunkRecord) (n : ℕ)
      → IsQuiet start (suc n) l
      → r.last_node_id + 1 ≡ start
      → start < 2 ^ 64
      → local_step (l ++ r ∷ []) message
        ≡ (l ++ (place [] (add_fragment r start f)).0, (place [] (add_fragment r start f)).1)
  unfolding local_step deliver matches
  local_step_later l r n quiet waits fits =
      let new = new_record device path size total start f in
      let hit : (next_id r == start) ≡ true = ground arith in
      rw (deliver_quiet l (r ∷ []) new start n f quiet, hit) refl

module _ (r : ChunkRecord) (start : ℕ) (f : Bytes) where
  place_last :
      r.total_fragments ≡ length r.json_datas + 1
      → place [] (add_fragment r start f)
        ≡ ([], some (r.device_msg, concat r.json_datas ++ (f ++ [])))
  unfolding add_fragment is_complete
  place_last count =
      ground (arith, length-append r.json_datas (f ∷ []), concat-append r.json_datas (f ∷ []))

  place_more :
      (n : ℕ)
      → r.total_fragments ≡ length r.json_datas + suc (suc n)
      → place [] (add_fragment r start f) ≡ (add_fragment r start f ∷ [], none)
  unfolding add_fragment is_complete
  place_more n count = ground (arith, length-append r.json_datas (f ∷ []))

-- One message of the path, where its list is known.
module _ (rs : ChunkRecords) (m : Message) (ms : List Message) (l l' : List ChunkRecord)
    (d : Delivery) (before : entry rs m.sensor_path ≡ l) (step : local_step l m ≡ (l', d)) where
  entry_step : entry (add_message rs m).0 m.sensor_path ≡ l'
  entry_step = entry-add_message rs m m.sensor_path ∙ rw (str_eq_refl, before) (ap (λ p. p.0) step)

  run_step : (run rs (m ∷ ms)).1 ≡ (m.sensor_path, d) ∷ (run (add_message rs m).0 ms).1
  unfolding run
  run_step = cc (add_message-delivery rs m, step, before)

concat_snoc :
    (fs : List Bytes) (f rest : Bytes) → concat (fs ++ f ∷ []) ++ rest ≡ concat fs ++ (f ++ rest)
concat_snoc fs f rest = rw (concat-append, append-nil) (append_assoc (concat fs) f rest)

feed_loop :
    (fs : List Bytes) (f device : Bytes) (path : Str) (size : ℤ) (total start : ℕ)
    (rs : ChunkRecords) (l : List ChunkRecord) (r : ChunkRecord)
    → entry rs path ≡ l ++ r ∷ []
    → IsQuiet start (suc (length fs)) l
    → r.last_node_id + 1 ≡ start
    → start + length fs < 2 ^ 64
    → r.total_fragments ≡ length r.json_datas + suc (length fs)
    → ((run rs (numbered device path size total start (f ∷ fs))).1
        ≡ answers path (length fs) (r.device_msg, concat r.json_datas ++ concat (f ∷ fs)))
      × (entry (run rs (numbered device path size total start (f ∷ fs))).0 path ≡ l)
unfolding add_fragment run
feed_loop [] f device path size total start rs l r here quiet waits fits count =
    let m = message device path size total start f in
    let step : local_step (l ++ r ∷ []) m
        ≡ (l, some (r.device_msg, concat r.json_datas ++ (f ++ []))) =
      local_step_later device path size total start f l r 0 quiet waits (omega arith)
      ∙ rw (place_last r start f count)
          (ap (λ t. (t, some (r.device_msg, concat r.json_datas ++ (f ++ [])))) (append-nil l)) in
    (run_step rs m [] _ _ _ here step ∙ refl, entry_step rs m [] _ _ _ here step)
feed_loop (g ∷ fs) f device path size total start rs l r here quiet waits fits count =
    let m = message device path size total start f in
    let r' = add_fragment r start f in
    let step : local_step (l ++ r ∷ []) m ≡ (l ++ r' ∷ [], none) =
      local_step_later device path size total start f l r (suc (length fs)) quiet waits
        (omega arith)
      ∙ rw (place_more r start f (length fs) count) in
    let ih =
      feed_loop fs g device path size total (start + 1) (add_message rs m).0 l r'
        (entry_step rs m [] _ _ _ here step) (IsQuiet-tail start (suc (length fs)) l quiet)
        (ap (λ (k : ℕ). k + 1) refl) (omega arith)
        (omega (arith, length-append r.json_datas (f ∷ []))) in
    (
      run_step rs m (numbered device path size total (start + 1) (g ∷ fs)) _ _ _ here step
          ∙ ap (λ t. (path, none) ∷ t)
              (ih.0
                ∙ ap (λ b. answers path (length fs) (r.device_msg, b))
                    (concat_snoc r.json_datas f (concat (g ∷ fs)))),
      ih.1,
    )

-- A text of two or more fragments, announced with the right count, numbered in order by node ids
-- below 2 ^ 64, on a path where no record waits for one of these ids: each fragment but the last
-- is answered by nothing, the last one by the device message of the first and all fragments joined
-- in order, and the records of the path are afterwards what they were before.
pub assemble_in_order :
    (rs : ChunkRecords) (device : Bytes) (path : Str) (size : ℤ) (start : ℕ) (f g : Bytes)
    (fs : List Bytes)
    → IsQuiet start (length (f ∷ g ∷ fs)) (entry rs path)
    → start + length (f ∷ g ∷ fs) ≤ 2 ^ 64
    → ((run rs (numbered device path size (length (f ∷ g ∷ fs)) start (f ∷ g ∷ fs))).1
        ≡ answers path (length (g ∷ fs)) (device, concat (f ∷ g ∷ fs)))
      × (entry (run rs (numbered device path size (length (f ∷ g ∷ fs)) start (f ∷ g ∷ fs))).0 path
          ≡ entry rs path)
unfolding run new_record
assemble_in_order rs device path size start f g fs quiet fits =
    let total : ℕ = length (f ∷ g ∷ fs) in
    let m = message device path size total start f in
    let l = entry rs path in
    let r = new_record device path size total start f in
    let step = local_step_first device path size total start f l (suc (length fs)) quiet in
    let ih =
      feed_loop fs g device path size total (start + 1) (add_message rs m).0 l r
        (entry_step rs m [] _ _ _ refl step) (IsQuiet-tail start (suc (length fs)) l quiet)
        (ap (λ (k : ℕ). k + 1) refl) (omega arith) (omega arith) in
    (
      run_step rs m (numbered device path size total (start + 1) (g ∷ fs)) _ _ _ refl step
          ∙ ap (λ t. (path, none) ∷ t)
              (ih.0
                ∙ ap (λ b. answers path (length fs) (device, b))
                    (ap (λ b. b ++ concat (g ∷ fs)) (append-nil f))),
      ih.1,
    )
