-- ===== src/ProtoFiles.antt =====
-- src-tauri/src/proto_dynamic.rs: how proto files are found, compiled and loaded into the registry
-- (`load_all_v3`, `generate_descriptor_files`). `F` stands for the errors of the operating system,
-- `P` for `DescriptorPool` and `D` for `MessageDescriptor`. The pool that the registry keeps is read
-- by nothing, and is left out.
pub mod Loading
pub mod Overwritten
use grpc_server_rust.Prelude.{
  ℕ, Bool, true, false, not, ◌&&◌, ltb, Option, none, some, List, [], ◌∷◌, ◌++◌, map, Bytes, Str,
  str, str_eq, fmt_nat, starts_with, ends_with, contains_str, length, retain, if◌then◌else◌,
}
use grpc_server_rust.Prelude.Paths.{join}
use grpc_server_rust.Prelude.StrMap.{StrMap, insert}
use grpc_server_rust.Error.{AppError, io, protoc, proto_reflect, config, Outcome, ok, err, Result}
use grpc_server_rust.Log.{info, warn, LogLine}
use grpc_server_rust.Registry.{FileProto, Registry, index_files}

-- protox and prost-reflect: the compilation of files under an include directory, the same with all
-- that they import, the encoding of a set of files, and the pool.
pub record ProtoLibrary (P D : Type 0) : Type 0 where
  pub compile : List Str → Str → Outcome Str (List FileProto)
  pub new_compiler : Str → Outcome Str (Unit {0})
  pub open_files : Str → List Str → Outcome Str (List FileProto)
  pub encode : List FileProto → Bytes
  pub new_pool : P
  pub add_file : P → FileProto → Outcome Str P
  pub get_message : P → Str → Option D

-- The system: which directories there are, the names in a directory, and what it lets be made.
pub record System (F : Type 0) : Type 0 where
  pub current_dir : Outcome F Str
  pub exists : Str → Bool
  pub create_dir_all : Str → Outcome F (Unit {0})
  pub read_dir : Str → Outcome F (List Str)
  pub write : Str → Bytes → Outcome F (Unit {0})

-- What the loading changes: the registry, the disk as the files that are written with their content, in
-- the order of the writes, and the log. A directory that is made is left out.
pub record State (D : Type 0) : Type 0 where
  pub registry : Registry D
  pub disk : List (Str × Bytes)
  pub log : List LogLine

-- `p.extension() == Some("proto")`, of the name of a file
unfoldable pub is_proto : Str → Bool
is_proto name = ltb 6 (length name) && ends_with name (str ".proto")

unfoldable pub is_v3_proto : Str → Bool
unfolding is_proto
is_v3_proto name =
    is_proto name
    && (ends_with name (str "_v3.proto") && not (str_eq name (str "grpc_dialout_v3.proto")))

unfoldable pub is_compiled : Str → Bool
unfolding is_proto
is_compiled name =
    is_proto name
    && (not (starts_with name (str "any.proto")) && not (contains_str name (str "_bak_")))

-- What a file holds: its last write.
unfoldable pub content : List (Str × Bytes) → Str → Option Bytes
content [] path = none
content ((written_to, bytes) ∷ later) path = elim (content later path) [
  | some last ↦ some last
  | none ↦ if str_eq written_to path then some bytes else none
]

module _ {F P D : Type 0} (library : ProtoLibrary P D) (system : System F) where
  -- The writing of a file: the disk has it where that works.
  abbrev pub written : Outcome F (Unit {0}) → Str → Bytes → List (Str × Bytes) → List (Str × Bytes)
  written (ok done) path bytes disk = disk ++ (path, bytes) ∷ []
  written (err e) path bytes disk = disk

  -- The loop that fills the pool and the list of files.
  unfoldable pub add_files : P → List FileProto → List Str → List Str × Outcome Str P
  add_files pool [] names = (names, ok pool)
  add_files pool (f ∷ fs) names = elim (library.add_file pool f) [
    | ok pool' ↦ add_files pool' fs (names ++ f.name ∷ [])
    | err e ↦ (names, err e)
  ]

  -- The end of `load_all_v3`, from the names of files and the pool.
  abbrev pub indexed :
      State D → List FileProto → List Str × Outcome Str P → State D × Result F (Unit {0})
  indexed s files (names, err e) = (
    record s { registry = record s.registry { v3_files = names } },
    err (proto_reflect (str "Failed to add file descriptor to pool: " ++ e)),
  )
  indexed s files (names, ok pool) =
      let messages = index_files (library.get_message pool) s.registry.message_by_name files in
      (
        record s {
          registry = record { message_by_name = messages; v3_files = names };
          log =
              s.log
              ++ (
                info,
                str "Loaded "
                    ++ fmt_nat (length names)
                    ++ str " v3 proto files, "
                    ++ fmt_nat (length messages)
                    ++ str " message types indexed",
              )
                ∷ [];
        },
        ok tt,
      )

  unfoldable pub desc_path : Str → Str
  desc_path autogen_dir = join autogen_dir (str "v3_modules.desc")

  abbrev pub compiled : Str → State D → Outcome Str (List FileProto) → State D × Result F (Unit {0})
  compiled autogen_dir s (err e) = (s, err (protoc (str "protox compile failed: " ++ e)))
  compiled autogen_dir s (ok files) =
      let path = desc_path autogen_dir in
      let bytes = library.encode files in
      indexed (record s { disk = written (system.write path bytes) path bytes s.disk }) files
        (add_files library.new_pool files s.registry.v3_files)

  abbrev pub found : Str → Str → State D → List Str → State D × Result F (Unit {0})
  found proto_dir autogen_dir s [] = (
    record s { log = s.log ++ (warn, str "No v3 proto files found in " ++ proto_dir) ∷ [] },
    ok tt,
  )
  found proto_dir autogen_dir s (n ∷ ns) =
      let paths = map (join proto_dir) (n ∷ ns) in
      let line : LogLine = (
        info,
        str "Compiling "
            ++ fmt_nat (length (n ∷ ns))
            ++ str " v3 proto files with protox (pure-Rust protoc)...",
      ) in
      compiled autogen_dir (record s { log = s.log ++ line ∷ [] }) (library.compile paths proto_dir)

  abbrev pub listed : Str → Str → State D → Outcome F (List Str) → State D × Result F (Unit {0})
  listed proto_dir autogen_dir s (err e) = (s, err (io e))
  listed proto_dir autogen_dir s (ok names) =
      found proto_dir autogen_dir s (retain is_v3_proto names)

  -- The directory is made where it is not there.
  abbrev pub dir_ready : Str → Outcome F (Unit {0})
  dir_ready dir = if system.exists dir then ok tt else system.create_dir_all dir

  abbrev pub load_ready : Str → Str → State D → Outcome F (Unit {0}) → State D × Result F (Unit {0})
  load_ready proto_dir autogen_dir s (err e) = (s, err (io e))
  load_ready proto_dir autogen_dir s (ok done) =
      listed proto_dir autogen_dir s (system.read_dir proto_dir)

  unfoldable pub load_all_v3 : Str → Str → State D → State D × Result F (Unit {0})
  unfolding add_files is_v3_proto desc_path
  load_all_v3 proto_dir autogen_dir s = load_ready proto_dir autogen_dir s (dir_ready autogen_dir)

  -- The end of `generate_descriptor_files`: the combined descriptor is written, and the v3 files are
  -- loaded into a registry of their own.
  abbrev pub generated :
      Str
      → Str
      → List Str
      → List FileProto
      → State D
      → Outcome F (Unit {0})
      → State D × Result F (Unit {0})
  generated proto_dir autogen_dir names files s (err e) = (s, err (io e))
  generated proto_dir autogen_dir names files s (ok done) =
      let path = desc_path autogen_dir in
      let bytes = library.encode files in
      load_all_v3 proto_dir autogen_dir (record {
        registry = record { message_by_name = []; v3_files = [] };
        disk = s.disk ++ (path, bytes) ∷ [];
        log =
            s.log
            ++ (
              info,
              str "Generated combined descriptor: "
                  ++ path
                  ++ str " ("
                  ++ fmt_nat (length names)
                  ++ str " files, "
                  ++ fmt_nat (length bytes)
                  ++ str " bytes)",
            )
              ∷ [];
      })

  abbrev pub opened :
      Str → Str → List Str → State D → Outcome Str (List FileProto) → State D × Result F (Unit {0})
  opened proto_dir autogen_dir names s (err e) =
      (s, err (protoc (str "protox compile failed: " ++ e)))
  opened proto_dir autogen_dir names s (ok files) =
      generated proto_dir autogen_dir names files s
        (system.write (desc_path autogen_dir) (library.encode files))

  abbrev pub compiler_ready :
      Str → Str → List Str → State D → Outcome Str (Unit {0}) → State D × Result F (Unit {0})
  compiler_ready proto_dir autogen_dir names s (err e) =
      (s, err (protoc (str "protox compiler init failed: " ++ e)))
  compiler_ready proto_dir autogen_dir names s (ok done) =
      opened proto_dir autogen_dir names s (library.open_files proto_dir names)

  abbrev pub chosen : Str → Str → State D → List Str → State D × Result F (Unit {0})
  chosen proto_dir autogen_dir s [] = (s, err (config (str "No proto files found to compile")))
  chosen proto_dir autogen_dir s (n ∷ ns) =
      compiler_ready proto_dir autogen_dir (n ∷ ns) s (library.new_compiler proto_dir)

  abbrev pub generate_listed :
      Str → Str → State D → Outcome F (List Str) → State D × Result F (Unit {0})
  generate_listed proto_dir autogen_dir s (err e) = (s, err (io e))
  generate_listed proto_dir autogen_dir s (ok names) =
      chosen proto_dir autogen_dir s (retain is_compiled names)

  abbrev pub generate_ready :
      Str → Str → State D → Outcome F (Unit {0}) → State D × Result F (Unit {0})
  generate_ready proto_dir autogen_dir s (err e) = (s, err (io e))
  generate_ready proto_dir autogen_dir s (ok done) =
      generate_listed proto_dir autogen_dir s (system.read_dir proto_dir)

  abbrev pub checked : Str → Str → State D → Bool → State D × Result F (Unit {0})
  checked proto_dir autogen_dir s true =
      generate_ready proto_dir autogen_dir s (dir_ready autogen_dir)
  checked proto_dir autogen_dir s false =
      (s, err (config (str "Proto directory '" ++ proto_dir ++ str "' does not exist")))

  abbrev pub generate_in : State D → Outcome F Str → State D × Result F (Unit {0})
  generate_in s (err e) = (s, err (io e))
  generate_in s (ok dir) =
      let proto_dir = join dir (str "proto") in
      checked proto_dir (join dir (str "autogen")) s (system.exists proto_dir)

  unfoldable pub generate_descriptor_files : State D → State D × Result F (Unit {0})
  unfolding load_all_v3 is_compiled desc_path
  generate_descriptor_files s = generate_in s system.current_dir
