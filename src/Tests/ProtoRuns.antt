-- ===== src/Tests/ProtoRuns.antt =====
-- The loading of proto files of src-tauri/src/proto_dynamic.rs at work.
use grpc_server_rust.ProtoFiles.Loading.{Leads}
use grpc_server_rust.ProtoFiles.{add_files}
use grpc_server_rust.Registry.{split, last_part}
use grpc_server_rust.Prelude.{
  ◌≡◌, refl, true, some, List, [], ◌∷◌, Bytes, Str, str, str_eq, starts_with, ends_with, All,
  contains_str,
}
use grpc_server_rust.Error.{ok}
use grpc_server_rust.Registry.{FileProto, underscored, full_name}
use grpc_server_rust.ProtoFiles.{
  ProtoLibrary, System, State, load_all_v3, generate_descriptor_files, is_v3_proto, is_compiled,
  desc_path, content,
}
use grpc_server_rust.ProtoFiles.Loading.{IsPool, load_all_v3-find_module}
use grpc_server_rust.ProtoFiles.Overwritten.{generate_overwrites}

abbrev devm : FileProto
devm = record {
  name = str "devm_v3.proto";
  proto_package = str "devm";
  message_type = str "Alarm" ∷ str "dev_m" ∷ [];
}

abbrev dialout_file : FileProto
dialout_file = record {
  name = str "dialout.proto";
  proto_package = [];
  message_type = str "Args" ∷ [];
}

-- The pool knows every name, and a descriptor is a name; the encoding is one byte for each file.
abbrev library : ProtoLibrary (Unit {0}) Str
library = record {
  compile = λ paths include. ok (devm ∷ []);
  new_compiler = λ include. ok tt;
  open_files = λ include names. ok (devm ∷ dialout_file ∷ []);
  encode = λ files. map_one files;
  new_pool = tt;
  add_file = λ p f. ok tt;
  get_message = λ p name. some name;
}
  where
    map_one : List FileProto → Bytes
    map_one [] = []
    map_one (f ∷ fs) = 1 ∷ map_one fs

abbrev listing : List Str
listing = str "dialout.proto" ∷ str "devm_v3.proto" ∷ str "notes.txt" ∷ []

abbrev system : System Str
system = record {
  current_dir = ok (str "/srv");
  exists = λ path. true;
  create_dir_all = λ path. ok tt;
  read_dir = λ path. ok listing;
  write = λ path bytes. ok tt;
}

abbrev start : State Str
start = record { registry = record { message_by_name = []; v3_files = [] }; disk = []; log = [] }

abbrev stale : State Str
stale = record start {
  registry = record { message_by_name = (str "dev_m", str "old.dev_m") ∷ []; v3_files = [] };
}

abbrev autogen : Str
autogen = str "/srv/autogen"

abbrev protos : Str
protos = str "/srv/proto"

names_known :
    (p : Unit {0}) (proto_package : Str) (names : List Str)
    → All
        (λ name. (d : Str) × (library.get_message p (full_name proto_package name) ≡ some d))
        names
names_known p proto_package [] = tt
names_known p proto_package (name ∷ names) =
    ((full_name proto_package name, refl), names_known p proto_package names)

library-IsPool : IsPool library system
library-IsPool p p' f added = (names_known p' f.proto_package f.message_type, λ g known. known)

-- A path of two parts, and a registry that holds another descriptor of the message.
load_all_v3-find_module_example :
    Leads library system library-IsPool devm
      (str "dev_m")
      (str "dev-m/cpu")
      (load_all_v3 library system protos autogen stale).0.registry
      (add_files library system tt (devm ∷ []) [])
unfolding underscored split last_part str_eq is_v3_proto load_all_v3 ends_with
load_all_v3-find_module_example =
    load_all_v3-find_module library system library-IsPool protos autogen stale listing
      (str "devm_v3.proto") [] [] [] devm (str "dev_m") (str "Alarm" ∷ []) [] (str "dev-m")
      (str "dev-m/cpu") (str "cpu" ∷ []) (refl, refl, refl, refl) refl refl tt tt refl refl

generate_overwrites_example :
    let path = desc_path library system autogen in
    let disk = (generate_descriptor_files library system start).0.disk in
    (disk ≡ (path, 1 ∷ 1 ∷ []) ∷ (path, 1 ∷ []) ∷ []) × (content disk path ≡ some (1 ∷ []))
unfolding is_v3_proto is_compiled ends_with str_eq starts_with contains_str
generate_overwrites_example =
    generate_overwrites library system (str "/srv") listing (str "dialout.proto")
      (str "devm_v3.proto" ∷ []) (str "devm_v3.proto") [] (devm ∷ dialout_file ∷ []) (devm ∷ [])
      start (refl, refl, refl, refl, refl, refl) (refl, refl, refl, refl) refl
