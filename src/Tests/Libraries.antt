-- ===== src/Tests/Libraries.antt =====
-- The libraries that the services take as parameters, made concrete for the runs.
use grpc_server_rust.Prelude.{none, some, Bytes, str}
use grpc_server_rust.Error.{ok}
use grpc_server_rust.Wire.{Json, DialoutCodec, DeviceInfo}

-- Every text is a value, and prints as itself.
abbrev pub any_json : Json
any_json = record {
  Value = Bytes;
  from_slice = λ b. ok b;
  to_string = λ v. some v;
  to_string_pretty = λ v. some v;
  string_pretty = λ s. some s;
}

abbrev pub device : DeviceInfo
device = record {
  producer_name = str "maker";
  device_name = str "switch";
  device_model = str "model";
  device_ip_addr = none;
  event_type = none;
  device_serial_number = none;
}

-- Every payload is the text of a message on one path.
abbrev pub any_codec : DialoutCodec
any_codec = record {
  decode = λ b.
      ok (record { device_msg = device; sensor_path = str "p"; json_data = b; chunk_msg = none });
  encode_device = λ d. d.device_name;
  debug = λ m. m.json_data;
}
