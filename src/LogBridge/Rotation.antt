-- ===== src/LogBridge/Rotation.antt =====
-- What the rotation by size promises.
use grpc_server_rust.Prelude.{
  ◌≤◌, ◌≡◌, refl, ap, append_assoc, append-nil, true, Option, none, some, List, [], ◌∷◌, ◌++◌, Str,
  length,
}
use grpc_server_rust.LogBridge.{
  Effect, emit, flush, remove, create, append, Message, Writer, Limits, Pass, goes_on, line_of,
  flushes,
}

-- The lines among the effects.
abbrev pub appended : List Effect → List Str
appended [] = []
appended (append f line ∷ es) = line ∷ appended es
appended (emit batch ∷ es) = appended es
appended (flush f ∷ es) = appended es
appended (remove fs ∷ es) = appended es
appended (create f ∷ es) = appended es

abbrev pub Fits : Limits → Message → Type 0
Fits limits m = length (line_of m) ≤ limits.max_bytes

appended-append : (es fs : List Effect) → appended (es ++ fs) ≡ appended es ++ appended fs
appended-append [] fs = refl
appended-append (append f line ∷ es) fs = ap (λ t. line ∷ t) (appended-append es fs)
appended-append (emit batch ∷ es) fs = appended-append es fs
appended-append (flush f ∷ es) fs = appended-append es fs
appended-append (remove rs ∷ es) fs = appended-append es fs
appended-append (create f ∷ es) fs = appended-append es fs

appended-flushes : (o : Option Str) → appended (flushes o) ≡ []
appended-flushes none = refl
appended-flushes (some f) = refl

ruleset effect_laws = (appended-append, appended-flushes, append-nil, append_assoc)

-- The file for the line can be opened, and the whole line reaches it.
abbrev pub IsTaken : Message → Type 0
IsTaken m = (m.can_open ≡ true) × (length (line_of m) ≤ m.wrote)

-- A writer with an open file and a counter within the limit, after the writing of some lines.
abbrev pub IsWritten : Limits → Writer → List Str → Pass → Type 0
IsWritten limits w lines p =
    (w' : Writer) × (f : Str) × (p ≡ goes_on w')
    × (w'.file ≡ some f)
    × (w'.size ≤ limits.max_bytes)
    × (appended w'.effects ≡ appended w.effects ++ lines)
