-- ===== src/LogFiles.antt =====
-- src-tauri/src/gui.rs: `cleanup_old_logs` on the entries of the directory of logs.
pub mod Newest
use grpc_server_rust.Prelude.{
  ℕ, suc, ◌-◌, Bool, true, false, ◌&&◌, ◌==◌, leb, Option, none, some, List, [], ◌∷◌, Str, str,
  starts_with, ends_with, length, drop, retain, if◌then◌else◌,
}

-- An entry whose metadata can be read: its name and the time of its last change.
pub record LogFile : Type 0 where
  pub name : Str
  pub modified : ℕ

unfoldable pub is_log_of : Str → LogFile → Bool
unfolding starts_with ends_with
is_log_of prefix f = starts_with f.name prefix && ends_with f.name (str ".log")

-- `sort_by_key`, which is stable
unfoldable pub insert_by : LogFile → List LogFile → List LogFile
insert_by f [] = f ∷ []
insert_by f (g ∷ gs) =
    let rest = insert_by f gs in if leb f.modified g.modified then f ∷ g ∷ gs else g ∷ rest

unfoldable pub sort_by_modified : List LogFile → List LogFile
unfolding insert_by
sort_by_modified [] = []
sort_by_modified (f ∷ fs) = insert_by f (sort_by_modified fs)

abbrev pub also_removed :
    LogFile → Option (List LogFile × List LogFile) → Option (List LogFile × List LogFile)
also_removed f none = none
also_removed f (some (removed, kept)) = some (f ∷ removed, kept)

-- The `while` loop: the files that it removes and those that stay; none stands for the panic of
-- `files.remove(0)` on an empty vector.
unfoldable pub remove_oldest : List LogFile → ℕ → Option (List LogFile × List LogFile)
remove_oldest [] max_num = if leb max_num 0 then none else some ([], [])
remove_oldest (f ∷ fs) max_num =
    let rest = remove_oldest fs max_num in
    if leb max_num (length (f ∷ fs)) then also_removed f rest else some ([], f ∷ fs)

unfoldable pub cleanup_old_logs : List LogFile → Str → ℕ → Option (List LogFile × List LogFile)
unfolding is_log_of sort_by_modified remove_oldest
cleanup_old_logs entries prefix max_num =
    remove_oldest (sort_by_modified (retain (is_log_of prefix) entries)) max_num
