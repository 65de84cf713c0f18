-- ===== src/Prelude/Paths.antt =====
-- Paths as their text.
use mathlib.Core.Bool.{Bool, true}
use mathlib.Core.List.{[], ◌∷◌, ◌++◌}
use grpc_server_rust.Prelude.Tests.{◌==◌, if◌then◌else◌}
use grpc_server_rust.Prelude.Text.{Str}

-- `dir.join(name)` of a directory
abbrev pub ends_in_slash : Str → Bool
ends_in_slash [] = true
ends_in_slash (b ∷ []) = b == 47
ends_in_slash (b ∷ c ∷ s) = ends_in_slash (c ∷ s)

abbrev pub join : Str → Str → Str
join dir name = if ends_in_slash dir then dir ++ name else dir ++ 47 ∷ name
