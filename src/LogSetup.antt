-- ===== src/LogSetup.antt =====
-- src-tauri/src/logging_setup.rs, and `open_log_file` of src-tauri/src/gui.rs: where log files lie and
-- what they are called. `F` stands for the errors of the operating system.
pub mod Backup
use grpc_server_rust.Prelude.{
  ℕ, Bool, true, false, not, ◌==◌, ltb, Option, none, some, List, [], ◌∷◌, ◌++◌, map, Bytes, Str,
  str, str_eq, fmt_nat, to_lowercase, length, retain, if◌then◌else◌,
}
use grpc_server_rust.Prelude.Paths.{join}
use grpc_server_rust.Prelude.StrMap.{StrMap, insert}
use grpc_server_rust.Error.{AppError, io, config, Outcome, ok, err, Result}
use grpc_server_rust.Models.{DialoutMode, as_str}

-- `.replace(' ', "_").replace('-', "_")`
unfoldable pub flattened : Str → Str
flattened s = map (λ b. if b == 32 then 95 else if b == 45 then 95 else b) s

unfoldable pub mode_name : List DialoutMode → Str
unfolding flattened
mode_name [] = str "server"
mode_name (m ∷ []) = to_lowercase (flattened (as_str m))
mode_name (m ∷ n ∷ ms) = str "multi_mode"

unfoldable pub log_prefix : List DialoutMode → ℕ → Str
unfolding mode_name
log_prefix modes port = mode_name modes ++ str "_server_" ++ fmt_nat port

-- The files of the log directory and of its directory `backup`, by name, with what they hold. Other
-- entries are neither removed nor moved.
pub record LogDir : Type 0 where
  pub exists : Bool
  pub has_backup : Bool
  pub files : StrMap Bytes
  pub backups : StrMap Bytes

-- What the system allows: the making of the two directories, the removal of a backup, and the move
-- of a file, by its name.
pub record Permits (F : Type 0) : Type 0 where
  pub current_dir : Outcome F Str
  pub create_logs : Outcome F (Unit {0})
  pub create_backup : Outcome F (Unit {0})
  pub can_remove : Str → Bool
  pub can_rename : Str → Bool

-- The removal of the backups; a failure is passed over.
unfoldable pub remove_backups : (Str → Bool) → StrMap Bytes → StrMap Bytes
remove_backups can_remove backups = retain (λ e. not (can_remove e.0)) backups

-- The files that stay, and the backups after the moves; a failure is passed over, and a file of the
-- same name is replaced.
unfoldable pub move_files : (Str → Bool) → StrMap Bytes → StrMap Bytes → StrMap Bytes × StrMap Bytes
move_files can_rename [] backups = ([], backups)
move_files can_rename ((name, content) ∷ files) backups =
    let rest =
      move_files can_rename files
        (if can_rename name then insert backups name content else backups) in
    ((if can_rename name then rest.0 else (name, content) ∷ rest.0), rest.1)

module _ {F : Type 0} (permits : Permits F) where
  abbrev pub rotated : LogDir → LogDir
  rotated d =
      let moved =
        move_files permits.can_rename d.files (remove_backups permits.can_remove d.backups) in
      record d { has_backup = true; files = moved.0; backups = moved.1 }

  abbrev pub rotated_if : Outcome F (Unit {0}) → LogDir → LogDir × Result F (Unit {0})
  rotated_if (ok done) d = (rotated d, ok tt)
  rotated_if (err e) d = (d, err (io e))

  unfoldable pub rotate_old_logs : LogDir → LogDir × Result F (Unit {0})
  unfolding move_files remove_backups
  rotate_old_logs d =
      if d.has_backup then (rotated d, ok tt) else rotated_if permits.create_backup d

  -- What follows the rotation: the appender of a prefix, and the installation of the subscriber.
  abbrev pub installed :
      (Str → Outcome Str (Unit {0}))
      → Outcome Str (Unit {0})
      → Str
      → LogDir × Result F (Unit {0})
      → LogDir × Result F (Unit {0})
  installed build try_init prefix (d, err e) = (d, err e)
  installed build try_init prefix (d, ok done) = (
    d,
    elim (build prefix) [
      | err e ↦ err (config e)
      | ok appender ↦ elim try_init [
        | err e ↦ err (config (str "Failed to initialize logging: " ++ e))
        | ok active ↦ ok tt
      ]
    ],
  )

  abbrev pub with_logs : Bool → Outcome F (Unit {0}) → LogDir → LogDir × Result F (Unit {0})
  with_logs true made d = rotate_old_logs d
  with_logs false (err e) d = (d, err (io e))
  with_logs false (ok done) d = rotate_old_logs (record d { exists = true })

  unfoldable pub init_file_logging :
      (Str → Outcome Str (Unit {0}))
      → Outcome Str (Unit {0})
      → List DialoutMode
      → ℕ
      → LogDir
      → LogDir × Result F (Unit {0})
  unfolding rotate_old_logs log_prefix
  init_file_logging build try_init modes port d = elim permits.current_dir [
    | err e ↦ (d, err (io e))
    | ok base_dir ↦
        installed build try_init (log_prefix modes port) (with_logs d.exists permits.create_logs d)
  ]

-- The names of `open_log_file`, from the names of modes that the window sends.
unfoldable pub gui_mode_name : List Str → Str
gui_mode_name [] = str "server"
gui_mode_name (m ∷ []) =
    if str_eq m (str "normal")
    then str "grpc_2_layer"
    else if str_eq m (str "gpb")
    then str "grpc_3_layer"
    else if str_eq m (str "gnmi")
    then str "grpc_gnmi"
    else if str_eq m (str "udp")
    then str "udp_2_layer"
    else str "server"
gui_mode_name (m ∷ n ∷ ms) = str "multi_mode"

-- What `open_log_file` asks of the system. `H` stands for an open file.
pub record LogSystem (F H : Type 0) : Type 0 where
  pub current_dir : Outcome F Str
  pub has_logs : Bool
  pub create_dir_all : Str → Outcome F (Unit {0})
  pub now : Str
  pub open_append : Str → Outcome F H

module _ {F H : Type 0} (system : LogSystem F H) where
  abbrev pub open_in : List Str → ℕ → Str → Outcome F (H × Str × Str)
  open_in modes port log_dir =
      let prefix = gui_mode_name modes ++ str "_server_" ++ fmt_nat port in
      elim (system.open_append (join log_dir (prefix ++ str "_" ++ system.now ++ str ".log"))) [
        | ok file ↦ ok (file, log_dir, prefix)
        | err e ↦ err e
      ]

  unfoldable pub open_log_file : List Str → ℕ → Outcome F (H × Str × Str)
  unfolding gui_mode_name
  open_log_file modes port = elim system.current_dir [
    | err e ↦ err e
    | ok base ↦
        let log_dir = join base (str "logs") in
        if system.has_logs
        then open_in modes port log_dir
        else elim (system.create_dir_all log_dir) [
          | err e ↦ err e
          | ok done ↦ open_in modes port log_dir
        ]
  ]
