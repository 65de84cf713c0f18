-- ===== src/Dynamic/Fields.antt =====
-- What of a message reaches its JSON.
use grpc_server_rust.Prelude.{
  ◌≡◌, refl, ap, ◌∙◌, arith, true, false, not, ◌&&◌, Option, none, some, [], Str, str_eq,
  if◌then◌else◌,
}
use grpc_server_rust.Prelude.StrMap.{StrMap, get, insert, get-insert}
use mathlib.Core.Option
use grpc_server_rust.Error.{ok}
use grpc_server_rust.Wire.{Json}
use grpc_server_rust.Dynamic.{
  FieldDescriptor, DynValue, map, DynMessage, no_field, field, no_entry, JsonMaker, message_map,
  field_value_to_json, list_to_json, dynamic_message_to_json,
}

module _ {K : Type 0} where
  -- The last field of a name that is present.
  unfoldable pub last_present : DynMessage K → Str → Option (FieldDescriptor × DynValue K)
  last_present no_field k = none
  last_present (field f has v m) k =
      let later = last_present m k in
      elim later [
        | some found ↦ some found
        | none ↦ if has && str_eq f.name k then some (f, v) else none
      ]

  -- A map field without its entries.
  unfoldable pub shown : FieldDescriptor → DynValue K → DynValue K
  shown f v = if not f.is_list && f.is_map then map no_entry else v

  -- A message without its absent fields and without the entries of its map fields.
  unfoldable pub visible : DynMessage K → DynMessage K
  unfolding shown
  visible no_field = no_field
  visible (field f has v m) =
      let rest = visible m in if has then field f true (shown f v) rest else rest

module _ {K : Type 0} (json : Json) (make : JsonMaker json K) where
  abbrev pub json_of : FieldDescriptor → DynValue K → json.Value
  json_of f v =
      if f.is_list
      then list_to_json json make v
      else if f.is_map
      then make.object []
      else field_value_to_json json make v

  abbrev found_or : Option (FieldDescriptor × DynValue K) → Option json.Value → Option json.Value
  found_or none o = o
  found_or (some (f, v)) o = some (json_of f v)

  message_map-get :
      (m : DynMessage K) (obj : StrMap json.Value) (k : Str)
      → get (message_map json make obj m) k ≡ found_or (last_present m k) (get obj k)
  unfolding message_map last_present
  message_map-get no_field obj k = refl
  message_map-get (field f has v m) obj k =
      let value = json_of f v in
      ground (
        arith,
        message_map-get m (insert obj f.name value) k,
        message_map-get m obj k,
        get-insert obj f.name k value,
      )

  found_or-none :
      (o : Option (FieldDescriptor × DynValue K))
      → found_or o none ≡ Option.map (λ f. json_of f.0 f.1) o
  found_or-none none = refl
  found_or-none (some (f, v)) = refl

  json_of-shown : (f : FieldDescriptor) (v : DynValue K) → json_of f (shown f v) ≡ json_of f v
  unfolding shown
  json_of-shown f v = ground arith

  visible_map :
      (m : DynMessage K) (obj : StrMap json.Value)
      → message_map json make obj (visible m) ≡ message_map json make obj m
  unfolding message_map visible
  visible_map no_field obj = refl
  visible_map (field f false v m) obj = visible_map m obj
  visible_map (field f true v m) obj =
      ap (λ x. message_map json make (insert obj f.name x) (visible m)) (json_of-shown f v)
      ∙ visible_map m (insert obj f.name (json_of f v))

  -- The JSON object of a message has a key exactly where a field of that name is present: the value
  -- is that of the last such field, an array for a repeated field and the empty object for a map.
  pub dynamic_message_to_json_lem :
      (m : DynMessage K)
      → (obj : StrMap json.Value) × (dynamic_message_to_json json make m ≡ ok (make.object obj))
        × ((k : Str) → get obj k ≡ Option.map (λ f. json_of f.0 f.1) (last_present m k))
  unfolding dynamic_message_to_json get
  dynamic_message_to_json_lem m = (
    message_map json make [] m,
    refl,
    λ k. message_map-get m [] k ∙ found_or-none (last_present m k),
  )

  -- The JSON of a message is that of the message without its absent fields and without the entries
  -- of its map fields.
  pub json_forgets :
      (m : DynMessage K)
      → dynamic_message_to_json json make (visible m) ≡ dynamic_message_to_json json make m
  unfolding dynamic_message_to_json
  json_forgets m = ap (λ obj. ok (make.object obj)) (visible_map m [])
