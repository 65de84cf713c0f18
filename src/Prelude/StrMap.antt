-- ===== src/Prelude/StrMap.antt =====
-- `HashMap<String, V>` as an association list with one entry for each key.
use mathlib.Core.Path.{◌≡◌, refl}
use mathlib.Core.Option.{Option, none, some}
use mathlib.Core.List.{List, [], ◌∷◌}
use native.Mathlib.Omega.{arith}
use grpc_server_rust.Prelude.Tests.{if◌then◌else◌}
use grpc_server_rust.Prelude.Text.{Str, str_eq, str_eq_iff, str_eq_refl}

abbrev pub StrMap {ℓ} : Type ℓ → Type ℓ
StrMap V = List (Str × V)

module _ {ℓ} {V : Type ℓ} where
  unfoldable pub get : StrMap V → Str → Option V
  get [] k = none
  get ((j, v) ∷ m) k = if str_eq j k then some v else get m k

  unfoldable pub insert : StrMap V → Str → V → StrMap V
  insert [] k v = (k, v) ∷ []
  insert ((j, w) ∷ m) k v = if str_eq j k then (k, v) ∷ m else (j, w) ∷ insert m k v

  pub get-insert :
      (m : StrMap V) (k j : Str) (v : V)
      → get (insert m k v) j ≡ (if str_eq k j then some v else get m j)
  unfolding get insert
  get-insert [] k j v = refl
  get-insert ((i, w) ∷ m) k j v =
      ground (arith, str_eq_iff k j, str_eq_iff i k, str_eq_iff i j, get-insert m k j v)

  pub get-insert_self : (m : StrMap V) (k : Str) (v : V) → get (insert m k v) k ≡ some v
  get-insert_self m k v = rw (get-insert, str_eq_refl)
