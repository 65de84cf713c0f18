-- ===== src/Registry/Lookup.antt =====
-- Which descriptor a sensor path leads to.
use grpc_server_rust.Prelude.{
  ◌≡◌, refl, ap, ◌∙◌, false, Option, none, some, List, [], ◌∷◌, ◌++◌, Str, str_eq, All,
}
use grpc_server_rust.Prelude.StrMap.{StrMap, get, insert, get-insert, get-insert_self}
use grpc_server_rust.Registry.{
  insert_found, find_in, split, underscored, last_part, full_name, FileProto, Registry,
  index_message, index_file, index_files, find_module,
}

-- The message with this name is indexed under another key.
abbrev pub IsElsewhere : Str → Str → Type 0
IsElsewhere k name = str_eq (last_part 46 name) k ≡ false

module _ {D : Type 0} (reg : Registry D) where
  -- A path whose first part, with underscores for dashes, is an indexed name leads to its message.
  pub find_indexed :
      (segment path : Str) (rest : List Str) (d : D)
      → split 47 path ≡ segment ∷ rest
      → get reg.message_by_name (underscored segment) ≡ some d
      → find_module reg path ≡ some d
  unfolding find_module find_in
  find_indexed segment path rest d parts found =
      ap (λ l. find_in reg l path) parts ∙ rw (find_in, found) refl

module _ {D : Type 0} (lookup : Str → Option D) (k : Str) where
  insert_found_elsewhere :
      (m : StrMap D) (name : Str) (o : Option D)
      → IsElsewhere k name
      → get (insert_found m name o) k ≡ get m k
  insert_found_elsewhere m name none h = refl
  insert_found_elsewhere m name (some e) h = get-insert m (last_part 46 name) k e ∙ rw h refl

  index_file_elsewhere :
      (m : StrMap D) (p : Str) (names : List Str)
      → All (IsElsewhere k) names
      → get (index_file lookup m p names) k ≡ get m k
  unfolding index_file index_message
  index_file_elsewhere m p [] h = refl
  index_file_elsewhere m p (name ∷ names) (h, hs) =
      index_file_elsewhere (index_message lookup m p name) p names hs
      ∙ insert_found_elsewhere m name (lookup (full_name p name)) h

  index_files_elsewhere :
      (m : StrMap D) (fs : List FileProto)
      → All (λ f. All (IsElsewhere k) f.message_type) fs
      → get (index_files lookup m fs) k ≡ get m k
  unfolding index_files
  index_files_elsewhere m [] h = refl
  index_files_elsewhere m (f ∷ fs) (h, hs) =
      index_files_elsewhere (index_file lookup m f.proto_package f.message_type) fs hs
      ∙ index_file_elsewhere m f.proto_package f.message_type h

  index_file_sets :
      (m : StrMap D) (p name : Str) (d : D) (before after : List Str)
      → lookup (full_name p name) ≡ some d
      → last_part 46 name ≡ k
      → All (IsElsewhere k) after
      → get (index_file lookup m p (before ++ name ∷ after)) k ≡ some d
  unfolding index_file index_message
  index_file_sets m p name d [] after found key later =
      index_file_elsewhere (index_message lookup m p name) p after later
      ∙ ap (λ x. get (insert_found m name x) k) found
      ∙ ap (λ j. get (insert m j d) k) key
      ∙ get-insert_self m k d
  index_file_sets m p name d (b ∷ before) after found key later =
      index_file_sets (index_message lookup m p b) p name d before after found key later

  -- A message of a file that is indexed has the entry of its key, if no later message has that key.
  pub index_files_sets :
      (m : StrMap D) (d : D) (file : FileProto) (before after : List FileProto) (name : Str)
      (names_before names_after : List Str)
      → file.message_type ≡ names_before ++ name ∷ names_after
      → lookup (full_name file.proto_package name) ≡ some d
      → last_part 46 name ≡ k
      → All (IsElsewhere k) names_after
      → All (λ f. All (IsElsewhere k) f.message_type) after
      → get (index_files lookup m (before ++ file ∷ after)) k ≡ some d
  unfolding index_files
  index_files_sets m d file [] after name names_before names_after types found key later files =
      index_files_elsewhere (index_file lookup m file.proto_package file.message_type) after files
      ∙ ap (λ names. get (index_file lookup m file.proto_package names) k) types
      ∙ index_file_sets m file.proto_package name d names_before names_after found key later
  index_files_sets m d file (g ∷ before) after name names_before names_after types found key later
        files =
      index_files_sets (index_file lookup m g.proto_package g.message_type) d file before after name
        names_before names_after types found key later files
