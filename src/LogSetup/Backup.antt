-- ===== src/LogSetup/Backup.antt =====
-- What the rotation at the start keeps.
use grpc_server_rust.Prelude.{
  ◌≡◌, ap, ◌∙◌, arith, Bool, Bool-cases, inl, inr, Option, none, some, [], ◌∷◌, Bytes, Str, str_eq,
  str_eq_iff, if◌then◌else◌,
}
use grpc_server_rust.Prelude.StrMap.{StrMap, get, insert, get-insert}
use grpc_server_rust.Error.{ok}
use grpc_server_rust.LogSetup.{
  LogDir, Permits, remove_backups, move_files, rotated, rotate_old_logs, rotated_if,
}

-- No two files of one name, as in a directory.
abbrev pub Distinct : StrMap Bytes → Type 0
Distinct [] = Unit {0}
Distinct ((n, c) ∷ files) = (get files n ≡ none) × Distinct files

abbrev pub or_else : Option Bytes → Option Bytes → Option Bytes
or_else (some c) o = some c
or_else none o = o

get-remove_backups :
    (can_remove : Str → Bool) (backups : StrMap Bytes) (n : Str)
    → get (remove_backups can_remove backups) n ≡ (if can_remove n then none else get backups n)
unfolding remove_backups get
get-remove_backups can_remove [] n = ground arith
get-remove_backups can_remove ((k, c) ∷ backups) n =
    let ih = get-remove_backups can_remove backups n in
    elim (Bool-cases (str_eq k n)) [
      | inl same ↦ ground (arith, ap can_remove ((str_eq_iff k n).0 same), same, ih)
      | inr other ↦ ground (arith, other, ih)
    ]

get-move_files :
    (can_rename : Str → Bool) (files backups : StrMap Bytes) (n : Str)
    → Distinct files
    → let moved = move_files can_rename files backups in
      (get moved.0 n ≡ (if can_rename n then none else get files n))
      × (get moved.1 n
          ≡ (if can_rename n then or_else (get files n) (get backups n) else get backups n))
unfolding move_files get
get-move_files can_rename [] backups n h = ground arith
get-move_files can_rename ((k, c) ∷ files) backups n (new, h) =
    let backups' = if can_rename k then insert backups k c else backups in
    let ih = get-move_files can_rename files backups' n h in
    elim (Bool-cases (str_eq k n)) [
      | inl same ↦
          let e = (str_eq_iff k n).0 same in
          ground (arith, ap can_rename e, ap (get files) e, new, same, ih, get-insert backups k n c)
      | inr other ↦ ground (arith, other, ih, get-insert backups k n c)
    ]

rotate_old_logs-rotated :
    {F : Type 0} (permits : Permits F) (d : LogDir)
    → permits.create_backup ≡ ok tt
    → rotate_old_logs permits d ≡ (rotated permits d, ok tt)
unfolding rotate_old_logs
rotate_old_logs-rotated permits d made = elim (Bool-cases d.has_backup) [
  | inl there ↦
      ap (λ b. if b then (rotated permits d, ok tt) else rotated_if permits permits.create_backup d)
        there
  | inr missing ↦
      ap (λ b. if b then (rotated permits d, ok tt) else rotated_if permits permits.create_backup d)
        missing
      ∙ ap (λ o. rotated_if permits o d) made
]

-- Any file is afterwards where the system let it be: with the content that it had it is among the
-- backups, or still among the logs if it could not be moved; a backup stays only if it could not be
-- removed and no log of its name was moved onto it. This holds for each name, in a directory with no
-- two files of one name, where the directory of backups can be made.
pub rotate_old_logs_lem :
    {F : Type 0} (permits : Permits F) (d : LogDir) (n : Str)
    → Distinct d.files
    → permits.create_backup ≡ ok tt
    → let d' = (rotate_old_logs permits d).0 in
      (get d'.files n ≡ (if permits.can_rename n then none else get d.files n))
      × (get d'.backups n ≡ (
          if permits.can_rename n
          then or_else (get d.files n) (if permits.can_remove n then none else get d.backups n)
          else if permits.can_remove n
          then none
          else get d.backups n))
unfolding rotate_old_logs
rotate_old_logs_lem permits d n distinct made =
    let e = rotate_old_logs-rotated permits d made in
    let left = remove_backups permits.can_remove d.backups in
    let (a, b) = get-move_files permits.can_rename d.files left n distinct in
    (
      ap (λ r. get r.0.files n) e ∙ a,
      ap (λ r. get r.0.backups n) e
          ∙ b
          ∙ ap (λ o. if permits.can_rename n then or_else (get d.files n) o else o)
              (get-remove_backups permits.can_remove d.backups n),
    )
