-- ===== src/Common/Text.antt =====
-- `String.prototype.split` with a separator of one character.
use Prim.Native.Nat.{ℕ}
use Prim.Native.Char.{Char, code}
use Prim.Native.String.{String, [], ◌∷◌}
use mathlib.Core.Logic.{ite}
use mathlib.Core.List.{List}
use mathlib.Core.List as L
use native.Mathlib.Decide.{ℕ_discrete}

abbrev cons_first : Char → List String → List String
cons_first c L.[] = L.◌∷◌ (c ∷ []) L.[]
cons_first c (L.◌∷◌ p ps) = L.◌∷◌ (c ∷ p) ps

unfoldable pub split : ℕ → String → List String
unfolding ℕ_discrete
split sep [] = L.◌∷◌ "" L.[]
split sep (c ∷ s) =
    let rest = split sep s in ite (ℕ_discrete (code c) sep) (L.◌∷◌ "" rest) (cons_first c rest)
