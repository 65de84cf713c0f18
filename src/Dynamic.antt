-- ===== src/Dynamic.antt =====
-- src-tauri/src/dialout/gpb_v3.rs, from `dynamic_message_to_json` on: the JSON of a message that is
-- decoded at run time. A message of prost-reflect is what its accessors answer for the fields of its
-- descriptor, in their order; a float is its bit pattern.
pub mod Fields
use grpc_server_rust.Prelude.{ℕ, Bool, List, [], ◌∷◌, Bytes, Str, if◌then◌else◌}
use grpc_server_rust.Prelude.Int.{ℤ}
use grpc_server_rust.Prelude.StrMap.{StrMap, insert}
use grpc_server_rust.Prelude.Utf8.{from_utf8_lossy}
use grpc_server_rust.Error.{Outcome, ok}
use grpc_server_rust.Wire.{Json}

pub record FieldDescriptor : Type 0 where
  pub name : Str
  pub is_list : Bool
  pub is_map : Bool

-- `prost_reflect::Value` and what it is made of. `K` stands for `prost_reflect::MapKey`. A field
-- comes with the answers of `has_field` and `get_field`.
mutual
  pub data DynValue (K : Type 0) : Type 0 where
    bool : Bool → DynValue K
    i32 i64 enum_number : ℤ → DynValue K
    u32 u64 f32 f64 : ℕ → DynValue K
    string : Str → DynValue K
    bytes : Bytes → DynValue K
    message : DynMessage K → DynValue K
    list : DynValues K → DynValue K
    map : DynEntries K → DynValue K

  pub data DynValues (K : Type 0) : Type 0 where
    no_value : DynValues K
    value : DynValue K → DynValues K → DynValues K

  pub data DynEntries (K : Type 0) : Type 0 where
    no_entry : DynEntries K
    entry : K → DynValue K → DynEntries K → DynEntries K

  pub data DynMessage (K : Type 0) : Type 0 where
    no_field : DynMessage K
    field : FieldDescriptor → Bool → DynValue K → DynMessage K → DynMessage K

-- The ways to make a `serde_json::Value`: its constructors, `json!` of a number, and `{:?}` of a key.
pub record JsonMaker (json : Json) (K : Type 0) : Type 0 where
  pub bool : Bool → json.Value
  pub integer : ℤ → json.Value
  pub unsigned : ℕ → json.Value
  pub float32 : ℕ → json.Value
  pub float64 : ℕ → json.Value
  pub string : Str → json.Value
  pub array : List json.Value → json.Value
  pub object : StrMap json.Value → json.Value
  pub debug_key : K → Str

-- `DynamicMessage::decode` by a descriptor, and the `Display` of a message.
pub record Reflect (D K : Type 0) : Type 0 where
  pub decode : D → Bytes → Outcome Str (DynMessage K)
  pub show : DynMessage K → Str

module _ {K : Type 0} (json : Json) (make : JsonMaker json K) where
  -- The `kind` that the source hands on decides nothing, and is left out.
  unfoldable mutual
    pub field_value_to_json : DynValue K → json.Value
    field_value_to_json (bool b) = make.bool b
    field_value_to_json (i32 n) = make.integer n
    field_value_to_json (i64 n) = make.integer n
    field_value_to_json (u32 n) = make.unsigned n
    field_value_to_json (u64 n) = make.unsigned n
    field_value_to_json (f32 n) = make.float32 n
    field_value_to_json (f64 n) = make.float64 n
    field_value_to_json (string s) = make.string s
    field_value_to_json (bytes b) = make.string (from_utf8_lossy b)
    field_value_to_json (enum_number n) = make.integer n
    field_value_to_json (message m) = make.object (message_map [] m)
    field_value_to_json (list vs) = make.array (values_to_json vs)
    field_value_to_json (map es) = make.object (entries_map [] es)

    pub values_to_json : DynValues K → List json.Value
    values_to_json no_value = []
    values_to_json (value v vs) = field_value_to_json v ∷ values_to_json vs

    pub entries_map : StrMap json.Value → DynEntries K → StrMap json.Value
    entries_map obj no_entry = obj
    entries_map obj (entry k v es) =
        entries_map (insert obj (make.debug_key k) (field_value_to_json v)) es

    -- The value of a repeated field.
    pub list_to_json : DynValue K → json.Value
    list_to_json (list vs) = make.array (values_to_json vs)
    list_to_json v = make.array []

    -- The loop over the fields of the descriptor.
    pub message_map : StrMap json.Value → DynMessage K → StrMap json.Value
    message_map obj no_field = obj
    message_map obj (field f has v m) =
        let json_val =
          if f.is_list
          then list_to_json v
          else if f.is_map
          then make.object []
          else field_value_to_json v in
        let obj' = insert obj f.name json_val in message_map (if has then obj' else obj) m

  -- `dynamic_msg_to_json_value` is another name of it. The answer is always `Ok`, so that the
  -- `unwrap_or(Null)` around the recursive call never shows.
  unfoldable pub dynamic_message_to_json : DynMessage K → Outcome Str json.Value
  unfolding message_map
  dynamic_message_to_json m = ok (make.object (message_map [] m))
