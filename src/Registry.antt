-- ===== src/Registry.antt =====
-- src-tauri/src/proto_dynamic.rs: the index of message descriptors by name. `D` stands for
-- `MessageDescriptor`, and the files are those of the `FileDescriptorSet` that protox compiles.
pub mod Lookup
use grpc_server_rust.Prelude.{
  ℕ, Bool, ◌&&◌, not, ◌==◌, Option, none, some, List, [], ◌∷◌, ◌++◌, map, Str, str, str_eq,
  unwrap_or, get_elem?, if◌then◌else◌, length, drop, ltb, ◌-◌, ◌||◌, retain,
}
use grpc_server_rust.Prelude.StrMap.{StrMap, get, insert}

-- `s.split(c)`: the parts around a byte; there is always a first one.
abbrev pub onto_first : ℕ → List Str → List Str
onto_first b [] = (b ∷ []) ∷ []
onto_first b (part ∷ parts) = (b ∷ part) ∷ parts

unfoldable pub split : ℕ → Str → List Str
split c [] = [] ∷ []
split c (b ∷ s) = let parts = split c s in if b == c then [] ∷ parts else onto_first b parts

-- `s.replace('-', "_")`
unfoldable pub underscored : Str → Str
underscored s = map (λ b. if b == 45 then 95 else b) s

-- `s.rsplit(c).next().unwrap_or(s)`
unfoldable pub last_part : ℕ → Str → Str
unfolding split
last_part c s = last_of (split c s)
  where
    last_of : List Str → Str
    last_of [] = s
    last_of (part ∷ []) = part
    last_of (part ∷ next ∷ parts) = last_of (next ∷ parts)

-- `FileDescriptorProto`: its proto_package and the names of its top-level messages.
pub record FileProto : Type 0 where
  pub name : Str
  pub proto_package : Str
  pub message_type : List Str

pub record Registry (D : Type 0) : Type 0 where
  pub message_by_name : StrMap D
  pub v3_files : List Str

unfoldable pub full_name : Str → Str → Str
full_name proto_package relative_name =
    if str_eq proto_package [] then relative_name else proto_package ++ 46 ∷ relative_name

module _ {D : Type 0} where
  abbrev pub insert_found : StrMap D → Str → Option D → StrMap D
  insert_found m relative_name none = m
  insert_found m relative_name (some desc) = insert m (last_part 46 relative_name) desc

  -- `get_message_by_name` of the pool is the parameter `lookup`.
  unfoldable pub index_message : (Str → Option D) → StrMap D → Str → Str → StrMap D
  unfolding full_name last_part
  index_message lookup m proto_package relative_name =
      insert_found m relative_name (lookup (full_name proto_package relative_name))

  unfoldable pub index_file : (Str → Option D) → StrMap D → Str → List Str → StrMap D
  unfolding index_message
  index_file lookup m proto_package [] = m
  index_file lookup m proto_package (name ∷ names) =
      index_file lookup (index_message lookup m proto_package name) proto_package names

  unfoldable pub index_files : (Str → Option D) → StrMap D → List FileProto → StrMap D
  unfolding index_file
  index_files lookup m [] = m
  index_files lookup m (f ∷ fs) =
      index_files lookup (index_file lookup m f.proto_package f.message_type) fs

  abbrev pub second_segment : Registry D → List Str → Option D
  second_segment reg parts = elim (get_elem? parts 1) [
    | some second ↦ get reg.message_by_name second
    | none ↦ none
  ]

  -- `find_module` from the parts of the path.
  unfoldable pub find_in : Registry D → List Str → Str → Option D
  unfolding underscored
  find_in reg parts sensor_path =
      let module_name = underscored (unwrap_or (get_elem? parts 0) sensor_path) in
      elim (get reg.message_by_name module_name) [
        | some desc ↦ some desc
        | none ↦ if str_eq module_name (str "InSuitOam") then second_segment reg parts else none
      ]

  unfoldable pub find_module : Registry D → Str → Option D
  unfolding split find_in
  find_module reg sensor_path = find_in reg (split 47 sensor_path) sensor_path

  -- In the order of the map, which is none that the program fixes.
  unfoldable pub supported_modules : Registry D → List Str
  supported_modules reg = map (λ e. e.0) reg.message_by_name
