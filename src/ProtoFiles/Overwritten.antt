-- ===== src/ProtoFiles/Overwritten.antt =====
-- What `generate_descriptor_files` leaves in the file that it writes.
use grpc_server_rust.Prelude.{
  str_eq_refl, ◌++◌, [], Bytes, append_assoc, ◌≡◌, refl, ap, ◌∙◌, true, some, List, ◌∷◌, Str, str,
  retain,
}
use grpc_server_rust.Prelude.Paths.{join}
use grpc_server_rust.Error.{Outcome, ok, err}
use grpc_server_rust.Registry.{FileProto}
use grpc_server_rust.ProtoFiles.{
  ProtoLibrary, System, State, content, written, add_files, indexed, generated, opened,
  compiler_ready, chosen, generate_listed, generate_ready, dir_ready, is_compiled, load_all_v3,
  desc_path, generate_descriptor_files, checked, generate_in,
}
use grpc_server_rust.ProtoFiles.Loading.{Compiles, load_all_v3-indexed, before_index}

content_last :
    (disk : List (Str × Bytes)) (path : Str) (bytes : Bytes)
    → content (disk ++ (path, bytes) ∷ []) path ≡ some bytes
unfolding content
content_last [] path bytes = rw str_eq_refl refl
content_last ((other, b) ∷ disk) path bytes = rw (content_last disk path bytes) refl

module _ {F P D : Type 0} (library : ProtoLibrary P D) (system : System F) where
  -- Every call in front of the writing of the combined descriptor works, and there is a file.
  abbrev pub Generates : Str → List Str → Str → List Str → List FileProto → Type 0
  Generates dir listing m ms all =
      let autogen_dir = join dir (str "autogen") in
      let path = desc_path library system autogen_dir in
      (system.current_dir ≡ ok dir)
      × (system.exists (join dir (str "proto")) ≡ true)
      × (retain is_compiled listing ≡ m ∷ ms)
      × (library.new_compiler (join dir (str "proto")) ≡ ok tt)
      × (library.open_files (join dir (str "proto")) (m ∷ ms) ≡ ok all)
      × (system.write path (library.encode all) ≡ ok tt)

  generate-generated :
      (dir : Str) (listing : List Str) (m : Str) (ms : List Str) (all : List FileProto)
      (s : State D)
      → Generates dir listing m ms all
      → dir_ready library system (join dir (str "autogen")) ≡ ok tt
      → system.read_dir (join dir (str "proto")) ≡ ok listing
      → let proto_dir = join dir (str "proto") in
        let autogen_dir = join dir (str "autogen") in
        generate_descriptor_files library system s
        ≡ generated library system proto_dir autogen_dir (m ∷ ms) all s (ok tt)
  unfolding generate_descriptor_files
  generate-generated dir listing m ms all s (here, there, picked, init, opens, write) ready read =
      let proto_dir = join dir (str "proto") in
      let autogen_dir = join dir (str "autogen") in
      ap (generate_in library system s) here
      ∙ ap (checked library system proto_dir autogen_dir s) there
      ∙ ap (generate_ready library system proto_dir autogen_dir s) ready
      ∙ ap (generate_listed library system proto_dir autogen_dir s) read
      ∙ ap (chosen library system proto_dir autogen_dir s) picked
      ∙ ap (compiler_ready library system proto_dir autogen_dir (m ∷ ms) s) init
      ∙ ap (opened library system proto_dir autogen_dir (m ∷ ms) s) opens
      ∙ ap (generated library system proto_dir autogen_dir (m ∷ ms) all s) write

  indexed_disk :
      (s : State D) (files : List FileProto) (r : List Str × Outcome Str P)
      → (indexed library system s files r).0.disk ≡ s.disk
  indexed_disk s files (names, ok p) = refl
  indexed_disk s files (names, err e) = refl

  load_all_v3_disk :
      (proto_dir autogen_dir : Str) (s : State D) (names : List Str) (n : Str) (ns : List Str)
      (files : List FileProto)
      → Compiles library system proto_dir autogen_dir names n ns files
      → system.write (desc_path library system autogen_dir) (library.encode files) ≡ ok tt
      → (load_all_v3 library system proto_dir autogen_dir s).0.disk
        ≡ s.disk ++ (desc_path library system autogen_dir, library.encode files) ∷ []
  load_all_v3_disk proto_dir autogen_dir s names n ns files compiles write =
      ap (λ r. r.0.disk)
        (load_all_v3-indexed library system proto_dir autogen_dir s names n ns files compiles)
      ∙ indexed_disk (before_index library system proto_dir autogen_dir s (n ∷ ns) files) files
          (add_files library system library.new_pool files s.registry.v3_files)
      ∙ ap
          (λ o.
            written library system o (desc_path library system autogen_dir) (library.encode files)
              s.disk)
          write

  -- A generation whose calls all work, in a directory with at least one v3 file: it writes
  -- v3_modules.desc twice, first with the encoding of all files and then with that of the v3 files,
  -- and no other file; so that the file holds the v3 files alone afterwards, whatever the pool makes
  -- of them.
  pub generate_overwrites :
      (dir : Str) (listing : List Str) (m : Str) (ms : List Str) (n : Str) (ns : List Str)
      (all v3 : List FileProto) (s : State D)
      → Generates dir listing m ms all
      → Compiles library system (join dir (str "proto")) (join dir (str "autogen")) listing n ns v3
      → let path = desc_path library system (join dir (str "autogen")) in
        system.write path (library.encode v3) ≡ ok tt
        → let disk = (generate_descriptor_files library system s).0.disk in
          (disk ≡ s.disk ++ (path, library.encode all) ∷ (path, library.encode v3) ∷ [])
          × (content disk path ≡ some (library.encode v3))
  generate_overwrites dir listing m ms n ns all v3 s generates (ready, read, picked, compiles)
        write =
      let proto_dir = join dir (str "proto") in
      let autogen_dir = join dir (str "autogen") in
      let path = desc_path library system autogen_dir in
      let first = s.disk ++ (path, library.encode all) ∷ [] in
      let run : (generate_descriptor_files library system s).0.disk
          ≡ first ++ (path, library.encode v3) ∷ [] =
        ap (λ r. r.0.disk) (generate-generated dir listing m ms all s generates ready read)
        ∙ load_all_v3_disk proto_dir autogen_dir _ listing n ns v3 (ready, read, picked, compiles)
            write in
      (
        run ∙ append_assoc s.disk ((path, library.encode all) ∷ []) _,
        ap (λ d. content d path) run ∙ content_last first path (library.encode v3),
      )
