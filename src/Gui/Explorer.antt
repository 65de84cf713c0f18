-- ===== src/Gui/Explorer.antt =====
-- `open_current_dir` of src-tauri/src/gui.rs. The systems are those that the code is compiled for; on
-- any other one no program is started.
use grpc_server_rust.Prelude.{◌≡◌, refl, arith, Option, none, some, ◌++◌, Str, str}
use grpc_server_rust.Error.{Outcome, ok, err}

pub data TargetOs : Type 0 where
  windows macos linux other : TargetOs

-- What the command asks of the system: the path of the program that runs, the directory of a path, and
-- the start of a program with one argument.
pub record Desktop (F : Type 0) : Type 0 where
  pub current_exe : Outcome F Str
  pub parent : Str → Option Str
  pub spawn_with : Str → Str → Outcome F (Unit {0})
  pub show : F → Str

module _ {F : Type 0} (desktop : Desktop F) where
  -- The end of a start, with the name of the program in the error.
  abbrev pub spawn_result : Str → Outcome F (Unit {0}) → Outcome Str (Unit {0})
  spawn_result called (ok done) = ok tt
  spawn_result called (err e) = err (str "Failed to open " ++ called ++ str ": " ++ desktop.show e)

  abbrev pub open_dir : TargetOs → Str → Outcome Str (Unit {0})
  open_dir windows dir = spawn_result (str "explorer") (desktop.spawn_with (str "explorer") dir)
  open_dir macos dir = spawn_result (str "Finder") (desktop.spawn_with (str "open") dir)
  open_dir linux dir = spawn_result (str "file manager") (desktop.spawn_with (str "xdg-open") dir)
  open_dir other dir = ok tt

  abbrev pub open_parent : TargetOs → Option Str → Outcome Str (Unit {0})
  open_parent os none = err (str "Failed to get parent directory")
  open_parent os (some dir) = open_dir os dir

  abbrev pub open_from : TargetOs → Outcome F Str → Outcome Str (Unit {0})
  open_from os (err e) = err (str "Failed to get exe path: " ++ desktop.show e)
  open_from os (ok exe) = open_parent os (desktop.parent exe)

  unfoldable pub open_current_dir : TargetOs → Outcome Str (Unit {0})
  open_current_dir os = open_from os desktop.current_exe

module _ {F : Type 0} (desktop : Desktop F) where
  -- The program that shows a directory was started on it; on another system there is none.
  abbrev pub Started : TargetOs → Str → Type 0
  Started windows dir = desktop.spawn_with (str "explorer") dir ≡ ok tt
  Started macos dir = desktop.spawn_with (str "open") dir ≡ ok tt
  Started linux dir = desktop.spawn_with (str "xdg-open") dir ≡ ok tt
  Started other dir = Unit {0}

  -- The directory that is shown: that of the program that runs.
  abbrev pub Shown : TargetOs → Outcome F Str → Type 0
  Shown os exe =
      (path : Str) × (dir : Str) × (exe ≡ ok path)
      × (desktop.parent path ≡ some dir)
      × Started os dir

  spawn_result_ok :
      (called : Str) (o : Outcome F (Unit {0})) → spawn_result desktop called o ≡ ok tt → o ≡ ok tt
  spawn_result_ok called (ok done) h = refl
  spawn_result_ok called (err e) h = absurd (ground arith)

  open_dir_ok : (os : TargetOs) (dir : Str) → open_dir desktop os dir ≡ ok tt → Started os dir
  open_dir_ok windows dir h =
      spawn_result_ok (str "explorer") (desktop.spawn_with (str "explorer") dir) h
  open_dir_ok macos dir h = spawn_result_ok (str "Finder") (desktop.spawn_with (str "open") dir) h
  open_dir_ok linux dir h =
      spawn_result_ok (str "file manager") (desktop.spawn_with (str "xdg-open") dir) h
  open_dir_ok other dir h = tt

  open_parent_ok :
      (os : TargetOs) (path : Str) (dir : Option Str)
      → desktop.parent path ≡ dir
      → open_parent desktop os dir ≡ ok tt
      → Shown os (ok path)
  open_parent_ok os path none h k = absurd (ground arith)
  open_parent_ok os path (some dir) h k = (path, dir, refl, h, open_dir_ok os dir k)

  open_from_ok :
      (os : TargetOs) (exe : Outcome F Str) → open_from desktop os exe ≡ ok tt → Shown os exe
  open_from_ok os (err e) h = absurd (ground arith)
  open_from_ok os (ok path) h = open_parent_ok os path (desktop.parent path) refl h

  -- Where the command reports no error, the explorer of the system was started on the directory of the
  -- program that runs, which need not be the working directory.
  pub open_current_dir_ok :
      (os : TargetOs) → open_current_dir desktop os ≡ ok tt → Shown os desktop.current_exe
  unfolding open_current_dir
  open_current_dir_ok os h = open_from_ok os desktop.current_exe h
