-- ===== src/Gui/Modes.antt =====
-- The names of modes that the window sends.
use grpc_server_rust.Prelude.{◌≡◌, refl, ap, Option, none, some, List, [], ◌∷◌, ◌++◌, Str, str}
use mathlib.Core.Path.{subst}
use grpc_server_rust.Error.{Outcome, ok, err}
use grpc_server_rust.Models.{DialoutMode, from_str_lossy}
use grpc_server_rust.Gui.{mode_or_error, in_front, collect_modes, dialout_modes}

abbrev pub or_this : Str → Option DialoutMode → Option Str → Option Str
or_this s none later = some s
or_this s (some m) later = later

-- The first name that is no mode's.
abbrev pub first_unknown : List Str → Option Str
first_unknown [] = none
first_unknown (s ∷ ss) = or_this s (from_str_lossy s) (first_unknown ss)

abbrev pub unknown_mode : Str → Outcome Str (List DialoutMode)
unknown_mode s = err (str "Unknown mode: '" ++ s ++ str "'")

-- What `dialout_modes` should be, given the first unknown name.
abbrev pub IsAnswer : Option Str → Outcome Str (List DialoutMode) → Type 0
IsAnswer (some s) o = o ≡ unknown_mode s
IsAnswer none o = (ms : List DialoutMode) × (o ≡ ok ms)

IsAnswer-step :
    (s : Str) (m : Option DialoutMode) (later : Option Str) (o : Outcome Str (List DialoutMode))
    → IsAnswer later o
    → IsAnswer (or_this s m later) (in_front (mode_or_error s m) o)
IsAnswer-step s none later o h = refl
IsAnswer-step s (some m) none o (ms, h) = (m ∷ ms, ap (in_front (ok m)) h)
IsAnswer-step s (some m) (some t) o h = ap (in_front (ok m)) h

collect_modes-IsAnswer : (ss : List Str) → IsAnswer (first_unknown ss) (collect_modes ss)
unfolding collect_modes
collect_modes-IsAnswer [] = ([], refl)
collect_modes-IsAnswer (s ∷ ss) =
    IsAnswer-step s (from_str_lossy s) (first_unknown ss) (collect_modes ss)
      (collect_modes-IsAnswer ss)

dialout_modes-IsAnswer : (ss : List Str) → IsAnswer (first_unknown ss) (dialout_modes ss)
unfolding dialout_modes
dialout_modes-IsAnswer [] = (_, refl)
dialout_modes-IsAnswer (s ∷ ss) = collect_modes-IsAnswer (s ∷ ss)

-- Where some name is unknown, the error is about the first of them.
pub dialout_modes-unknown :
    (ss : List Str) (s : Str) → first_unknown ss ≡ some s → dialout_modes ss ≡ unknown_mode s
dialout_modes-unknown ss s h =
    subst (λ o. IsAnswer o (dialout_modes ss)) h (dialout_modes-IsAnswer ss)

-- Where every name is known, there is a list of modes.
pub dialout_modes-known :
    (ss : List Str) → first_unknown ss ≡ none → (ms : List DialoutMode) × (dialout_modes ss ≡ ok ms)
dialout_modes-known ss h = subst (λ o. IsAnswer o (dialout_modes ss)) h (dialout_modes-IsAnswer ss)
