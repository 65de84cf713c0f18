-- ===== src/Tests/LogRuns.antt =====
-- `cleanup_old_logs` of src-tauri/src/gui.rs at work.
use grpc_server_rust.Prelude.{
  ◌≡◌, arith, some, none, List, [], ◌∷◌, ◌++◌, str, str_eq, length, All, starts_with, ends_with,
  refl,
}
use mathlib.Core.List.{Perm}
use grpc_server_rust.LogFiles.{LogFile, is_log_of, cleanup_old_logs}
use grpc_server_rust.LogFiles.Newest.{NoneOlder, logs_of, cleanup_keeps_newest}

abbrev entries : List LogFile
entries =
    record { name = str "udp_2.log"; modified = 20 }
    ∷ record { name = str "udp_1.log"; modified = 10 }
    ∷ record { name = str "gpb_1.log"; modified = 5 }
    ∷ record { name = str "udp_3.log"; modified = 30 }
    ∷ []

cleanup_keeps_newest_example :
    (removed : List LogFile) × (kept : List LogFile) × (cleanup_old_logs entries (str "udp") 2
      ≡ some (removed, kept))
    × Perm (removed ++ kept) (logs_of entries (str "udp"))
    × (length kept ≡ 1)
    × All (λ f. NoneOlder f kept) removed
unfolding is_log_of str_eq
cleanup_keeps_newest_example = cleanup_keeps_newest entries (str "udp") 2 (omega arith)

-- With the limit 0 the removal panics.
cleanup_zero : cleanup_old_logs entries (str "udp") 0 ≡ none
unfolding cleanup_old_logs is_log_of str_eq starts_with ends_with
cleanup_zero = refl
