-- ===== src/Common/Sets.antt =====
-- `Set<string>`: the elements in insertion order. `has` is also the `includes` of an array.
use Prim.Native.Nat.{◌≤◌}
use Prim.Native.String.{String}
use mathlib.Core.Path.{◌≡◌, refl}
use mathlib.Core.Bool.{Bool, true, false, ◌||◌}
use mathlib.Core.Logic.{inl, inr}
use mathlib.Core.List.{List, [], ◌∷◌, ◌++◌}
use native.Mathlib.Omega.{arith}
use text.Mathlib.Text.{◌==◌}
use text.Mathlib.TextEquality.{eq_iff}
use text.Mathlib.TextPositions.{eq_refl}
use supallm.Common.Base.{if◌then◌else◌, Bool-cases}
use supallm.Common.Lists.{length, filter, length-append, All}

unfoldable pub has : String → List String → Bool
has x [] = false
has x (y ∷ ys) = y == x || has x ys

unfoldable pub add : String → List String → List String
add x xs = if has x xs then xs else xs ++ x ∷ []

-- No element stands twice.
abbrev pub IsUnique : List String → Type 0
IsUnique [] = Unit
IsUnique (x ∷ xs) = (has x xs ≡ false) × IsUnique xs

pub has-append : (x : String) (xs ys : List String) → has x (xs ++ ys) ≡ (has x xs || has x ys)
unfolding has
has-append x [] ys = refl
has-append x (y ∷ xs) ys = ground (arith, has-append x xs ys)

pub has-add : (x y : String) (xs : List String) → has y (add x xs) ≡ (x == y || has y xs)
unfolding has add
has-add x y xs = ground (arith, has-append y xs (x ∷ []), eq_iff x y)

pub IsUnique-snoc :
    (x : String) (xs : List String) → IsUnique xs → has x xs ≡ false → IsUnique (xs ++ x ∷ [])
unfolding has
IsUnique-snoc x [] h k = (refl, tt)
IsUnique-snoc x (y ∷ xs) (h, u) k = (
  ground (arith, has-append y xs (x ∷ []), eq_iff x y, eq_iff y x),
  IsUnique-snoc x xs u (ground arith),
)

pub IsUnique-add : (x : String) (xs : List String) → IsUnique xs → IsUnique (add x xs)
unfolding add
IsUnique-add x xs u = ground (arith, IsUnique-snoc x xs u)

pub length-add-le : (x : String) (xs : List String) → length xs ≤ length (add x xs)
unfolding add
length-add-le x xs = ground (arith, length-append xs (x ∷ []))

pub has-filter :
    (p : String → Bool) (x : String) (xs : List String)
    → has x (filter p xs) ≡ true
    → (has x xs ≡ true) × (p x ≡ true)
unfolding has
has-filter p x (y ∷ xs) h = ground (arith, has-filter p x xs, eq_iff y x)
has-filter p x [] h = ground arith

pub has-filter_of :
    (p : String → Bool) (x : String) (xs : List String)
    → has x xs ≡ true
    → p x ≡ true
    → has x (filter p xs) ≡ true
unfolding has
has-filter_of p x (y ∷ xs) h k = ground (arith, has-filter_of p x xs, eq_iff y x)
has-filter_of p x [] h k = ground arith

has-filter-false :
    (p : String → Bool) (x : String) (xs : List String)
    → has x xs ≡ false
    → has x (filter p xs) ≡ false
has-filter-false p x xs h = elim (Bool-cases (has x (filter p xs))) [
  | inl e ↦ cc ((has-filter p x xs e).0)
  | inr e ↦ e
]

pub IsUnique-filter : (p : String → Bool) (xs : List String) → IsUnique xs → IsUnique (filter p xs)
unfolding has
IsUnique-filter p [] u = tt
IsUnique-filter p (x ∷ xs) (h, u) = elim (Bool-cases (p x)) [
  | inl e ↦ rw e (has-filter-false p x xs h, IsUnique-filter p xs u)
  | inr e ↦ rw e (IsUnique-filter p xs u)
]

pub All-of_has {κ} :
    (P : String → Type κ) (xs : List String) → ((x : String) → has x xs ≡ true → P x) → All P xs
unfolding has
All-of_has P [] h = tt
All-of_has P (x ∷ xs) h =
    (h x (ground (arith, eq_refl x)), All-of_has P xs (λ y e. h y (ground (arith, eq_iff x y))))

pub filter-eq-nil_of :
    (p : String → Bool) (xs : List String)
    → ((x : String) → has x xs ≡ true → p x ≡ false)
    → filter p xs ≡ []
unfolding has
filter-eq-nil_of p [] h = refl
filter-eq-nil_of p (x ∷ xs) h = ground (
  arith,
  h x (ground (arith, eq_refl x)),
  filter-eq-nil_of p xs (λ y e. h y (ground (arith, eq_iff x y))),
)
