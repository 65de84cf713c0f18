-- ===== src/Tests/ChunkRuns.antt =====
-- src-tauri/src/chunk.rs at work.
use grpc_server_rust.Chunk.Unordered.{of_records, receive_all, receive_interleaved}
use grpc_server_rust.Prelude.{
  ℕ, ◌+◌, ◌≡◌, refl, arith, none, some, List, [], ◌∷◌, Str, str, Bytes, concat, str_eq, All,
  str_eq_iff, Bool-cases, inl, inr,
}
use grpc_server_rust.Prelude.Int.{pos}
use grpc_server_rust.Prelude.StrMap.{get, insert}
use grpc_server_rust.Chunk.{
  new, entry, add, add_to_list, position, matches, is_complete, new_record, add_fragment,
  merge_json,
}
use grpc_server_rust.Chunk.Run.{Message, add_message, run}
use grpc_server_rust.Chunk.Assembly.{numbered, answers, assemble_in_order}
use grpc_server_rust.Chunk.Conservation.{held_bytes, delivered_bytes, add_conserves}
use grpc_server_rust.Chunk.Paths.{on_path, replies_on, run-on_path}
use grpc_server_rust.Chunk.Stalled.{run_single_delivers_nothing}

abbrev cpu : Str
cpu = str "Device/Cpu"

abbrev ports : Str
ports = str "Ifmgr/Ports"

-- Three fragments of one text.
abbrev three : List Bytes
three = str "{\"a\"" ∷ str ":" ∷ str "1}" ∷ []

abbrev fragment : Str → ℕ → Bytes → Message
fragment path nid json = record {
  device_msg = str "dev";
  sensor_path = path;
  json_data = json;
  total_size = some (pos 7);
  total_fragments = some 2;
  node_id = some nid;
}

-- Two texts on two paths, with their fragments interleaved.
abbrev mixed : List Message
mixed =
    fragment cpu 0 (str "ab")
    ∷ fragment ports 0 (str "12")
    ∷ fragment cpu 1 (str "cd")
    ∷ fragment ports 1 (str "34")
    ∷ []

three_joined :
    (run new (numbered (str "dev") cpu (pos 7) 3 0 three)).1
    ≡ (cpu, none) ∷ (cpu, none) ∷ (cpu, some (str "dev", str "{\"a\":1}")) ∷ []
unfolding run add add_to_list position matches new_record add_fragment is_complete merge_json entry
    get insert str_eq
three_joined = refl

mixed_joined :
    (run new mixed).1
    ≡ (cpu, none)
      ∷ (ports, none)
      ∷ (cpu, some (str "dev", str "abcd"))
      ∷ (ports, some (str "dev", str "1234"))
      ∷ []
unfolding run add add_to_list position matches new_record add_fragment is_complete merge_json entry
    get insert str_eq
mixed_joined = refl

assemble_in_order_example :
    ((run new (numbered (str "dev") cpu (pos 7) 3 0 three)).1
      ≡ answers cpu 2 (str "dev", concat three))
    × (entry (run new (numbered (str "dev") cpu (pos 7) 3 0 three)).0 cpu ≡ entry new cpu)
unfolding entry get
assemble_in_order_example =
    assemble_in_order new (str "dev") cpu (pos 7) 0 (str "{\"a\"") (str ":") (str "1}" ∷ []) tt
      (omega arith)

run-on_path_example :
    (replies_on cpu (run new mixed).1 ≡ (run new (on_path cpu mixed)).1)
    × (entry (run new mixed).0 cpu ≡ entry (run new (on_path cpu mixed)).0 cpu)
run-on_path_example = run-on_path new new mixed cpu refl

add_conserves_example :
    held_bytes (add_message new (fragment cpu 0 (str "ab"))).0
      + delivered_bytes (add_message new (fragment cpu 0 (str "ab"))).1
    ≡ held_bytes new + 2
add_conserves_example = add_conserves new (fragment cpu 0 (str "ab"))

-- A message that is announced as one fragment.
abbrev single : Message
single = record (fragment cpu 0 (str "ab")) { total_fragments = some 1 }

run_single_delivers_nothing_example :
    All (λ r. r.1 ≡ none) (run new (single ∷ record single { node_id = some 1 } ∷ [])).1
run_single_delivers_nothing_example =
    run_single_delivers_nothing new (single ∷ record single { node_id = some 1 } ∷ []) tt
      ((refl, omega arith), ((refl, omega arith), tt))

either_order :
    (p : Str)
    → on_path p (fragment cpu 0 (str "ab") ∷ fragment ports 0 (str "12") ∷ [])
      ≡ on_path p (fragment ports 0 (str "12") ∷ fragment cpu 0 (str "ab") ∷ [])
unfolding str_eq
either_order p = elim (Bool-cases (str_eq cpu p)) [
  | inl same ↦ rw (← (str_eq_iff cpu p).0 same) refl
  | inr other ↦ rw other refl
]

-- Two messages of different paths, in both orders.
receive_interleaved_example :
    let a = fragment cpu 0 (str "ab") in
    let b = fragment ports 0 (str "12") in
    let t = of_records new in
    ((receive_all (a ∷ b ∷ []) t).0 ≡ (receive_all (b ∷ a ∷ []) t).0)
    × ((p : Str)
        → replies_on p (receive_all (a ∷ b ∷ []) t).1 ≡ replies_on p (receive_all (b ∷ a ∷ []) t).1)
receive_interleaved_example =
    receive_interleaved (fragment cpu 0 (str "ab") ∷ fragment ports 0 (str "12") ∷ [])
      (fragment ports 0 (str "12") ∷ fragment cpu 0 (str "ab") ∷ []) either_order (of_records new)
