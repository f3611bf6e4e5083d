-- ===== src/Frontend/Names.antt =====
-- The names of new flows: `randomName` of frontend/src/lib/docker-name.ts.
pub mod Adjectives
pub mod Nouns
mod Tests
use supallm.Common.{
  ℕ, zero, suc, String, Bool, true, false, Option, none, some, List, [], ◌∷◌, ◌++◌, ◌≡◌, refl, sym,
  ap, ◌∙◌, ◌≤◌, ◌<◌, ◌&&◌, ◌-◌, ◌==◌, ◌||◌, leb, if◌then◌else◌, length, has, eq_refl, arith, every,
  Bool-cases, inl, inr,
}
use supallm.Common.Chars.{Chars, codes}
use supallm.Frontend.Names.Adjectives.{adjectives}
use supallm.Frontend.Names.Nouns.{nouns}

-- `Math.floor(Math.random() * n)`
pub record Draw : Type 0 where
  pub floor_of_random : ℕ → ℕ
  pub floor_of_random-lt : (n : ℕ) → 0 < n → floor_of_random n < n

abbrev pub at : List String → ℕ → Option String
at [] i = none
at (x ∷ xs) zero = some x
at (x ∷ xs) (suc i) = at xs i

-- `toUpperCase` on what the tables begin with
abbrev to_upper_case : ℕ → ℕ
to_upper_case c = if leb b'a' c && leb c b'z' then c - 32 else c

unfoldable pub capitalized : Chars → Chars
capitalized [] = []
capitalized (c ∷ rest) = to_upper_case c ∷ rest

-- None is the exception where an element is undefined.
unfoldable pub random_name : Draw → Draw → Option Chars
unfolding capitalized codes
random_name first second = elim (at adjectives (first.floor_of_random (length adjectives))) [
  | none ↦ none
  | some adjective ↦ elim (at nouns (second.floor_of_random (length nouns))) [
    | none ↦ none
    | some noun ↦ some (capitalized (codes adjective) ++ b' ' ∷ capitalized (codes noun))
  ]
]

at-has :
    (xs : List String) (i : ℕ)
    → i < length xs
    → ((x : String) × (at xs i ≡ some x) × (has x xs ≡ true))
unfolding has
at-has [] i h = absurd (omega (arith, h))
at-has (x ∷ xs) zero h = (x, refl, ground (arith, eq_refl x))
at-has (x ∷ xs) (suc i) h =
    let (y, e, k) = at-has xs i (omega (arith, h)) in (y, e, ground (arith, k))

-- A name is always drawn, and it is an adjective and a noun of the tables, each with a capital.
pub random_name-words :
    (first second : Draw)
    → ((adjective : String) × (noun : String) × (has adjective adjectives ≡ true)
        × (has noun nouns ≡ true)
        × (random_name first second
            ≡ some (capitalized (codes adjective) ++ b' ' ∷ capitalized (codes noun))))
unfolding random_name
random_name-words first second =
    let (adjective, e, h) =
      at-has adjectives _ (first.floor_of_random-lt (length adjectives) (omega arith)) in
    let (noun, k, j) = at-has nouns _ (second.floor_of_random-lt (length nouns) (omega arith)) in
    (adjective, noun, h, j, rw (random_name, e, k) refl)
