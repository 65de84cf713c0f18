-- ===== src/Models/Stats.antt =====
-- The two global counters of src-tauri/src/models.rs. They are u64 atomics, so `fetch_add` wraps.
use grpc_server_rust.Prelude.{ℕ, ◌+◌, ◌%◌, ◌^◌}

pub record Stats : Type 0 where
  pub msg_count : ℕ
  pub client_count : ℕ

-- `AtomicU64::fetch_add(1)`, and `+= 1` on a u64 in the release profile
abbrev pub incr : ℕ → ℕ
incr n = (n + 1) % 2 ^ 64

unfoldable pub incr_msg_count : Stats → Stats
incr_msg_count s = record s { msg_count = incr s.msg_count }

unfoldable pub incr_client_count : Stats → Stats
incr_client_count s = record s { client_count = incr s.client_count }

unfoldable pub reset_global_stats : Stats → Stats
reset_global_stats s = record { msg_count = 0; client_count = 0 }

abbrev pub get_global_msg_count : Stats → ℕ
get_global_msg_count s = s.msg_count

abbrev pub get_global_client_count : Stats → ℕ
get_global_client_count s = s.client_count
