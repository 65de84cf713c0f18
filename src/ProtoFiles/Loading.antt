-- ===== src/ProtoFiles/Loading.antt =====
-- What a load of the v3 files promises to the lookup.
use grpc_server_rust.Prelude.{
  ◌≡◌, refl, sym, ap, ◌∙◌, some, List, [], ◌∷◌, ◌++◌, map, Str, str, All, All-middle, retain,
  fmt_nat, length,
}
use mathlib.Core.Path.{subst}
use grpc_server_rust.Prelude.Paths.{join}
use grpc_server_rust.Error.{Outcome, ok, err}
use grpc_server_rust.Log.{info, LogLine}
use grpc_server_rust.Registry.{
  FileProto, Registry, underscored, split, last_part, index_files, full_name, find_module,
}
use grpc_server_rust.Registry.Lookup.{IsElsewhere, find_indexed, index_files_sets}
use grpc_server_rust.ProtoFiles.{
  ProtoLibrary, System, State, written, add_files, indexed, compiled, found, listed, dir_ready,
  load_ready, load_all_v3, is_v3_proto, desc_path,
}

module _ {F P D : Type 0} (library : ProtoLibrary P D) (system : System F) where
  -- The state in front of the loop over the compiled files.
  abbrev pub before_index : Str → Str → State D → List Str → List FileProto → State D
  before_index proto_dir autogen_dir s chosen files =
      let path = desc_path library system autogen_dir in
      let bytes = library.encode files in
      let line : LogLine = (
        info,
        str "Compiling "
            ++ fmt_nat (length chosen)
            ++ str " v3 proto files with protox (pure-Rust protoc)...",
      ) in
      record s {
        log = s.log ++ line ∷ [];
        disk = written library system (system.write path bytes) path bytes s.disk;
      }

  -- The calls in front of the index, where each works and there is a file.
  abbrev pub Compiles : Str → Str → List Str → Str → List Str → List FileProto → Type 0
  Compiles proto_dir autogen_dir names n ns files =
      (dir_ready library system autogen_dir ≡ ok tt)
      × (system.read_dir proto_dir ≡ ok names)
      × (retain is_v3_proto names ≡ n ∷ ns)
      × (library.compile (map (join proto_dir) (n ∷ ns)) proto_dir ≡ ok files)

  pub load_all_v3-indexed :
      (proto_dir autogen_dir : Str) (s : State D) (names : List Str) (n : Str) (ns : List Str)
      (files : List FileProto)
      → Compiles proto_dir autogen_dir names n ns files
      → load_all_v3 library system proto_dir autogen_dir s
        ≡ indexed library system
            (before_index proto_dir autogen_dir s (n ∷ ns) files)
            files
            (add_files library system library.new_pool files s.registry.v3_files)
  unfolding load_all_v3
  load_all_v3-indexed proto_dir autogen_dir s names n ns files (ready, read, chosen, compile) =
      ap (load_ready library system proto_dir autogen_dir s) ready
      ∙ ap (listed library system proto_dir autogen_dir s) read
      ∙ ap (found library system proto_dir autogen_dir s) chosen
      ∙ ap (compiled library system autogen_dir _) compile

  -- The pool has a descriptor for each top-level message of the file.
  abbrev pub Knows : P → FileProto → Type 0
  Knows pool f =
      All (λ name. (d : D) × (library.get_message pool (full_name f.proto_package name) ≡ some d))
        f.message_type

  -- What prost-reflect documents of a pool: a file that is added is known, and what was known stays.
  abbrev pub IsPool : Type 0
  IsPool =
      (p p' : P) (f : FileProto)
      → library.add_file p f ≡ ok p'
      → Knows p' f × ((g : FileProto) → Knows p g → Knows p' g)

  -- A predicate of the pool that a loop ends with, if it ends well.
  abbrev pub OnOk : (P → Type 0) → List Str × Outcome Str P → Type 0
  OnOk Q (names, ok p) = Q p
  OnOk Q (names, err e) = Unit {0}

  add_files_step :
      (Q : P → Type 0) (p : P) (f : FileProto) (fs : List FileProto) (names : List Str)
      → ((p' : P)
          → library.add_file p f ≡ ok p'
          → OnOk Q (add_files library system p' fs (names ++ f.name ∷ [])))
      → OnOk Q (add_files library system p (f ∷ fs) names)
  unfolding add_files
  add_files_step Q p f fs names h = with_answer (library.add_file p f) h
    where
      with_answer :
          (o : Outcome Str P)
          → ((p' : P) → o ≡ ok p' → OnOk Q (add_files library system p' fs (names ++ f.name ∷ [])))
          → OnOk Q (elim o [
            | ok pool' ↦ add_files library system pool' fs (names ++ f.name ∷ [])
            | err e ↦ (names, err e)
          ])
      with_answer (ok p') h = h p' refl
      with_answer (err e) h = tt

  module _ (pools : IsPool) where
    add_files_keeps :
        (p : P) (fs : List FileProto) (names : List Str) (g : FileProto)
        → Knows p g
        → OnOk (λ p'. Knows p' g) (add_files library system p fs names)
    unfolding add_files
    add_files_keeps p [] names g k = k
    add_files_keeps p (f ∷ fs) names g k =
        add_files_step (λ p'. Knows p' g) p f fs names
          (λ p' e. add_files_keeps p' fs (names ++ f.name ∷ []) g ((pools p p' f e).1 g k))

    add_files_adds :
        (p : P) (before after : List FileProto) (f : FileProto) (names : List Str)
        → OnOk (λ p'. Knows p' f) (add_files library system p (before ++ f ∷ after) names)
    add_files_adds p [] after f names =
        add_files_step (λ p'. Knows p' f) p f after names
          (λ p' e. add_files_keeps p' after (names ++ f.name ∷ []) f (pools p p' f e).0)
    add_files_adds p (g ∷ before) after f names =
        add_files_step (λ p'. Knows p' f) p g (before ++ f ∷ after) names
          (λ p' e. add_files_adds p' before after f (names ++ g.name ∷ []))

    -- The path leads to the descriptor that the pool has for the message.
    abbrev pub Leads : FileProto → Str → Str → Registry D → List Str × Outcome Str P → Type 0
    Leads file name path reg r =
        (pool : P) × (d : D) × (r.1 ≡ ok pool)
        × (library.get_message pool (full_name file.proto_package name) ≡ some d)
        × (find_module reg path ≡ some d)

    indexed-Leads :
        (s : State D) (before after : List FileProto) (file : FileProto) (name : Str)
        (names_before names_after : List Str) (segment path : Str) (rest : List Str)
        → file.message_type ≡ names_before ++ name ∷ names_after
        → last_part 46 name ≡ underscored segment
        → All (IsElsewhere (underscored segment)) names_after
        → All (λ f. All (IsElsewhere (underscored segment)) f.message_type) after
        → split 47 path ≡ segment ∷ rest
        → (r : List Str × Outcome Str P) → OnOk (λ p'. Knows p' file) r
        → let loaded = indexed library system s (before ++ file ∷ after) r in
          loaded.1 ≡ ok tt → Leads file name path loaded.0.registry r
    indexed-Leads s before after file name names_before names_after segment path rest types key
          later files parts (names, err e) k done =
        cc done
    indexed-Leads s before after file name names_before names_after segment path rest types key
          later files parts (names, ok p') k done =
        let knows : Str → Type 0 =
          λ name. (d : D) × (library.get_message p' (full_name file.proto_package name) ≡ some d) in
        let (d, known) =
          All-middle knows names_before names_after name (subst (All knows) types k) in
        let reg : Registry D = record {
          message_by_name =
              index_files (library.get_message p') s.registry.message_by_name
                (before ++ file ∷ after);
          v3_files = names;
        } in
        (
          p',
          d,
          refl,
          known,
          find_indexed reg segment path rest d parts (
              index_files_sets (library.get_message p') (underscored segment)
                s.registry.message_by_name d file before after name names_before names_after types
                known key later files),
        )

    -- Where a load of a directory with v3 files succeeds: every path whose first part, between
    -- slashes and with underscores for dashes, is the last part between dots of the name of a top-level
    -- message of a compiled file, and of no later one, leads to the descriptor that the pool of these
    -- files has for the full name of that message, whatever the registry held before. This relies on
    -- a pool that knows the messages of the files that were added to it.
    pub load_all_v3-find_module :
        (proto_dir autogen_dir : Str) (s : State D) (listing : List Str) (n : Str) (ns : List Str)
        (before after : List FileProto) (file : FileProto) (name : Str)
        (names_before names_after : List Str) (segment path : Str) (rest : List Str)
        → Compiles proto_dir autogen_dir listing n ns (before ++ file ∷ after)
        → file.message_type ≡ names_before ++ name ∷ names_after
        → last_part 46 name ≡ underscored segment
        → All (IsElsewhere (underscored segment)) names_after
        → All (λ f. All (IsElsewhere (underscored segment)) f.message_type) after
        → split 47 path ≡ segment ∷ rest
        → let loaded = load_all_v3 library system proto_dir autogen_dir s in
          loaded.1 ≡ ok tt
          → Leads file name path loaded.0.registry (
              add_files library system library.new_pool
                (before ++ file ∷ after)
                s.registry.v3_files)
    load_all_v3-find_module proto_dir autogen_dir s listing n ns before after file name names_before
          names_after segment path rest compiles types key later files parts done =
        let files' = before ++ file ∷ after in
        let run = load_all_v3-indexed proto_dir autogen_dir s listing n ns files' compiles in
        let added = add_files library system library.new_pool files' s.registry.v3_files in
        let (pool, d, has_pool, known, reached) =
          indexed-Leads (before_index proto_dir autogen_dir s (n ∷ ns) files') before after file
            name names_before names_after segment path rest types key later files parts added
            (add_files_adds library.new_pool before after file s.registry.v3_files)
            (ap (λ l. l.1) (sym run) ∙ done) in
        (pool, d, has_pool, known, ap (λ l. find_module l.0.registry path) run ∙ reached)
