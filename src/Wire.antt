-- ===== src/Wire.antt =====
-- The libraries that the services call and that are not in the repository: serde_json, and the code
-- that prost generates from proto/grpc_dialout.proto, proto/telemetry.proto and their companions.
-- The services take them as parameters.
use grpc_server_rust.Prelude.{ℕ, Option, List, Bytes, Str}
use grpc_server_rust.Prelude.Int.{ℤ}
use grpc_server_rust.Error.{Outcome}

-- serde_json: a parsed value is abstract, an error is the text that it prints as, and a
-- serialization that fails is `none`.
pub record Json : Type 1 where
  pub Value : Type 0
  pub from_slice : Bytes → Outcome Str Value
  pub to_string : Value → Option Str
  pub to_string_pretty : Value → Option Str
  pub string_pretty : Str → Option Str

-- `message DeviceInfo`
pub record DeviceInfo : Type 0 where
  pub producer_name : Str
  pub device_name : Str
  pub device_model : Str
  pub device_ip_addr : Option Str
  pub event_type : Option Str
  pub device_serial_number : Option Str

-- `message ChunkInfo`
pub record ChunkInfo : Type 0 where
  pub total_size : ℤ
  pub total_fragments : ℕ
  pub node_id : ℕ

-- `message DialoutMsg`
pub record DialoutMsg : Type 0 where
  pub device_msg : DeviceInfo
  pub sensor_path : Str
  pub json_data : Str
  pub chunk_msg : Option ChunkInfo

-- The generated codec: `DialoutMsg::decode`, `encode_to_vec` of the device message, and `{:?}`.
pub record DialoutCodec : Type 0 where
  pub decode : Bytes → Outcome Str DialoutMsg
  pub encode_device : DeviceInfo → Bytes
  pub debug : DialoutMsg → Str

-- `message DialoutV3Args`; `payload` is its `data`.
pub record DialoutV3Args : Type 0 where
  pub req_id : ℤ
  pub payload : Bytes
  pub errors : Str
  pub total_size : ℤ

-- `message TelemetryRowGPB`
pub record TelemetryRow : Type 0 where
  pub timestamp : ℕ
  pub keys : Bytes
  pub content : Bytes

-- `message Telemetry`; `data_gpb` is the list of rows of its table.
pub record Telemetry : Type 0 where
  pub producer_name : Str
  pub node_id_str : Str
  pub product_name : Str
  pub subscription_id_str : Str
  pub sensor_path : Str
  pub collection_id : ℕ
  pub collection_start_time : ℕ
  pub msg_timestamp : ℕ
  pub collection_end_time : ℕ
  pub current_period : ℕ
  pub except_desc : Str
  pub encoding : ℤ
  pub data_str : Str
  pub data_gpb : Option (List TelemetryRow)

-- `Telemetry::decode`, and `{:?}` of a message and of a row.
pub record TelemetryCodec : Type 0 where
  pub decode : Bytes → Outcome Str Telemetry
  pub debug : Telemetry → Str
  pub debug_row : TelemetryRow → Str
