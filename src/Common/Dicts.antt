-- ===== src/Common/Dicts.antt =====
-- An object used as a dictionary (`Record<string, V>`): its own properties in enumeration order.
use Prim.Native.String.{String}
use mathlib.Core.Path.{◌≡◌, refl}
use mathlib.Core.Bool.{true, false}
use mathlib.Core.Option.{Option, none, some}
use mathlib.Core.List.{List, [], ◌∷◌}
use native.Mathlib.Omega.{arith}
use text.Mathlib.Text.{◌==◌}
use text.Mathlib.TextEquality.{eq_iff}
use supallm.Common.Base.{if◌then◌else◌}
use supallm.Common.Sets.{has}

abbrev pub Dict {ℓ} : Type ℓ → Type ℓ
Dict V = List (String × V)

module _ {ℓ} {V : Type ℓ} where
  unfoldable pub get : String → Dict V → Option V
  get k [] = none
  get k ((j, v) ∷ d) = if j == k then some v else get k d

  unfoldable pub set : String → V → Dict V → Dict V
  set k v [] = (k, v) ∷ []
  set k v ((j, w) ∷ d) = if j == k then (j, v) ∷ d else (j, w) ∷ set k v d

  abbrev pub keys : Dict V → List String
  keys [] = []
  keys ((k, v) ∷ d) = k ∷ keys d

  pub get-set :
      (k j : String) (v : V) (d : Dict V) → get j (set k v d) ≡ (if k == j then some v else get j d)
  unfolding get set
  get-set k j v [] = refl
  get-set k j v ((i, w) ∷ d) = ground (arith, eq_iff k j, eq_iff i k, eq_iff i j, get-set k j v d)

  pub has-keys_of_get : (k : String) (d : Dict V) (v : V) → get k d ≡ some v → has k (keys d) ≡ true
  unfolding get has
  has-keys_of_get k ((j, w) ∷ d) v h = ground (arith, has-keys_of_get k d v)
  has-keys_of_get k [] v h = ground arith

  pub get-eq-none_of_has : (k : String) (d : Dict V) → has k (keys d) ≡ false → get k d ≡ none
  unfolding get has
  get-eq-none_of_has k [] h = refl
  get-eq-none_of_has k ((j, w) ∷ d) h = ground (arith, get-eq-none_of_has k d)

  pub has-keys_of_none : (k : String) (d : Dict V) → get k d ≡ none → has k (keys d) ≡ false
  unfolding get has
  has-keys_of_none k [] h = refl
  has-keys_of_none k ((j, w) ∷ d) h = ground (arith, has-keys_of_none k d)
