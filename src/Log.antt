-- ===== src/Log.antt =====
-- What the server writes by `tracing`: a level and a text for each event, in order.
use grpc_server_rust.Prelude.{[], ◌∷◌, ◌++◌, Str}

pub data Level : Type 0 where
  info warn error : Level

abbrev pub LogLine : Type 0
LogLine = Level × Str

-- The rule and the newline that `format!` texts are full of.
abbrev pub newline : Str
newline = 10 ∷ []

abbrev pub quote : Str → Str
quote s = 34 ∷ s ++ 34 ∷ []
