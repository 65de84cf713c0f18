-- ===== src/Gui/Emitted.antt =====
-- What src-tauri/src/gui.rs tells the window about a server: the events that are emitted, by name and
-- payload, and the line that is logged with them.
use grpc_server_rust.Prelude.{List, [], ◌∷◌, ◌++◌, Str, str}
use grpc_server_rust.Error.{display, Outcome, ok, err, Result}
use grpc_server_rust.Log.{error, LogLine}

abbrev pub Emission : Type 0
Emission = Str × Str

-- The end of a server thread.
unfoldable pub thread_ended :
    {F : Type 0} → (F → Str) → Result F (Unit {0}) → List LogLine × List Emission
thread_ended show (ok done) = ([], (str "log-line", str "Server exited cleanly") ∷ [])
thread_ended show (err e) =
    let msg = str "ERROR: Server failed: " ++ display show e in
    ((error, msg) ∷ [], (str "log-line", msg) ∷ (str "server-stopped", []) ∷ [])

-- The warning of `start_server` where the log file cannot be opened.
unfoldable pub open_warning : {A : Type 0} → Outcome Str A → List Emission
open_warning (ok a) = []
open_warning (err e) = (str "log-line", str "WARNING: Failed to open log file: " ++ e) ∷ []
