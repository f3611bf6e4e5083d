-- ===== src/Tools/Postgres/Safe.antt =====
-- What `toSafePgQuery` makes of a template.
use supallm.Common.{
  ℕ, zero, suc, ◌+◌, ◌≤◌, true, Option, none, some, List, [], ◌∷◌, ◌++◌, ◌≡◌, refl, sym, ap, ◌∙◌,
  All, length, length-append, arith, inl, inr, Bool-cases, Option-cases, Result-cases, ok, nat_eq,
}
use mathlib.Core.List.{append-nil, append_assoc}
use supallm.Common.Chars.{Chars}
use supallm.Values.{Value}
use supallm.Nodes.{Error}
use supallm.Tools.{Piece, char, place}
use supallm.Tools.Postgres.{
  Token, literal, variable, tokens, same_name, has_name, index_of, note_name, replace_variables,
  values_of, to_safe_pg_query, write_query,
}

-- The i-th element, from 1.
unfoldable pub nth {ℓ} : {A : Type ℓ} → ℕ → List A → Option A
nth n [] = none
nth zero (x ∷ xs) = none
nth (suc zero) (x ∷ xs) = some x
nth (suc (suc n)) (x ∷ xs) = nth (suc n) xs

-- A piece whose place is replaced by its value.
pub data Filled : Type 0 where
  text : ℕ → Filled
  value : Value → Filled
  unknown : Filled

unfoldable pub of_option : Option Value → Filled
of_option none = unknown
of_option (some v) = value v

-- What the database reads: each place `$i` is the i-th value.
unfoldable pub fill : List Value → List Piece → List Filled
unfolding nth of_option
fill values [] = []
fill values (char c ∷ ps) = text c ∷ fill values ps
fill values (place i ∷ ps) = of_option (nth i values) ∷ fill values ps

-- The template with each variable replaced by its own value.
unfoldable pub meaning : (Chars → Option Value) → List Token → List Filled
unfolding of_option
meaning variables [] = []
meaning variables (literal c ∷ ts) = text c ∷ meaning variables ts
meaning variables (variable name ∷ ts) = of_option (variables name) ∷ meaning variables ts

nat_eq_sound : (a b : ℕ) → nat_eq a b ≡ true → a ≡ b
nat_eq_sound a b h = ground arith

same_name_sound : (s t : Chars) → same_name s t ≡ true → s ≡ t
unfolding same_name
same_name_sound [] [] h = refl
same_name_sound [] (d ∷ t) h = ground arith
same_name_sound (c ∷ s) [] h = ground arith
same_name_sound (c ∷ s) (d ∷ t) h = elim (Bool-cases (nat_eq c d)) [
  | inl e ↦
      ap (λ x. x ∷ s) (nat_eq_sound c d e) ∙ ap (λ x. d ∷ x) (same_name_sound s t (ground arith))
  | inr e ↦ ground arith
]

same_name_refl : (s : Chars) → same_name s s ≡ true
unfolding same_name
same_name_refl [] = refl
same_name_refl (c ∷ s) = ground (arith, same_name_refl s)

-- A list of names is found in another, in front.
nth-append :
    {A : Type 0} (n : ℕ) (xs ys : List A) (a : A) → nth n xs ≡ some a → nth n (xs ++ ys) ≡ some a
unfolding nth
nth-append n [] ys a h = ground arith
nth-append zero (x ∷ xs) ys a h = ground arith
nth-append (suc zero) (x ∷ xs) ys a h = h
nth-append (suc (suc n)) (x ∷ xs) ys a h = nth-append (suc n) xs ys a h

nth-suc_index :
    (name : Chars) (xs : List Chars)
    → has_name name xs ≡ true
    → nth (suc (index_of name xs)) xs ≡ some name
unfolding nth index_of has_name
nth-suc_index name [] h = ground arith
nth-suc_index name (x ∷ xs) h = elim (Bool-cases (same_name x name)) [
  | inl e ↦ rw e (ap some (same_name_sound x name e))
  | inr e ↦ rw e (nth-suc_index name xs (ground arith))
]

add-one : (n : ℕ) → n + 1 ≡ suc n
add-one n = omega arith

nth-index_of :
    (name : Chars) (xs : List Chars)
    → has_name name xs ≡ true
    → nth (index_of name xs + 1) xs ≡ some name
nth-index_of name xs h = rw (add-one (index_of name xs)) (nth-suc_index name xs h)

has_name-snoc : (name : Chars) (xs : List Chars) → has_name name (xs ++ name ∷ []) ≡ true
unfolding has_name
has_name-snoc name [] = ground (arith, same_name_refl name)
has_name-snoc name (x ∷ xs) = ground (arith, has_name-snoc name xs)

has_name-note_name : (name : Chars) (xs : List Chars) → has_name name (note_name name xs) ≡ true
unfolding note_name
has_name-note_name name xs = ground (arith, has_name-snoc name xs)

-- The names found so far stay in front.
replace_variables-extends :
    (ts : List Token) (order : List Chars)
    → (more : List Chars) × ((replace_variables ts order).1 ≡ order ++ more)
unfolding replace_variables note_name
replace_variables-extends [] order = ([], sym (append-nil order))
replace_variables-extends (literal c ∷ ts) order = replace_variables-extends ts order
replace_variables-extends (variable name ∷ ts) order = elim (Bool-cases (has_name name order)) [
  | inl e ↦ rw e (replace_variables-extends ts order)
  | inr e ↦
      let (more, k) = replace_variables-extends ts (order ++ name ∷ []) in
      rw e (name ∷ more, k ∙ append_assoc order (name ∷ []) more)
]

-- A place between 1 and `n`.
abbrev pub IsWithin : ℕ → Piece → Type 0
IsWithin n (char c) = Unit
IsWithin n (place i) = (1 ≤ i) × (i ≤ n)

-- How many variables a template has, repeated ones included.
unfoldable pub count_variables : List Token → ℕ
count_variables [] = 0
count_variables (literal c ∷ ts) = count_variables ts
count_variables (variable name ∷ ts) = suc (count_variables ts)

nth-within :
    {A : Type 0} (n : ℕ) (xs : List A) (a : A) → nth n xs ≡ some a → (1 ≤ n) × (n ≤ length xs)
unfolding nth
nth-within n [] a h = ground arith
nth-within zero (x ∷ xs) a h = ground arith
nth-within (suc zero) (x ∷ xs) a h = (omega arith, omega arith)
nth-within (suc (suc n)) (x ∷ xs) a h = (omega arith, omega (arith, (nth-within (suc n) xs a h).1))

replace_variables-IsWithin :
    (ts : List Token) (order : List Chars)
    → All (IsWithin (length (replace_variables ts order).1)) (replace_variables ts order).0
unfolding replace_variables
replace_variables-IsWithin [] order = tt
replace_variables-IsWithin (literal c ∷ ts) order = (tt, replace_variables-IsWithin ts order)
replace_variables-IsWithin (variable name ∷ ts) order =
    let noted = note_name name order in
    let (more, e) = replace_variables-extends ts noted in
    let found =
      nth-append (index_of name noted + 1) noted more name
        (nth-index_of name noted (has_name-note_name name order)) in
    (
      nth-within (index_of name noted + 1) (replace_variables ts noted).1 name (rw e found),
      replace_variables-IsWithin ts noted,
    )

replace_variables-length :
    (ts : List Token) (order : List Chars)
    → length (replace_variables ts order).1 ≤ length order + count_variables ts
unfolding replace_variables count_variables note_name
replace_variables-length [] order = omega arith
replace_variables-length (literal c ∷ ts) order = replace_variables-length ts order
replace_variables-length (variable name ∷ ts) order = elim (Bool-cases (has_name name order)) [
  | inl e ↦ rw e (omega (arith, replace_variables-length ts order))
  | inr e ↦ rw e (
      omega
        (arith, length-append order (name ∷ []), replace_variables-length ts (order ++ name ∷ [])))
]

module _ (variables : Chars → Option Value) (missing : Chars → Error) where
  values_of-cons :
      (x : Chars) (order : List Chars) (values : List Value)
      → values_of variables missing (x ∷ order) ≡ ok values
      → (v : Value) × (vs : List Value) × (variables x ≡ some v)
        × (values_of variables missing order ≡ ok vs)
        × (v ∷ vs ≡ values)
  unfolding values_of
  values_of-cons x order values h = elim (Option-cases (variables x)) [
    | inl e ↦ ground (arith, e)
    | inr (v, e) ↦ elim (Result-cases (values_of variables missing order)) [
      | inl (vs, k) ↦ (v, vs, e, k, ground (arith, e, k))
      | inr (z, k) ↦ ground (arith, e, k)
    ]
  ]

  values_of-nth :
      (order : List Chars) (values : List Value) (n : ℕ) (name : Chars)
      → values_of variables missing order ≡ ok values
      → nth n order ≡ some name
      → nth n values ≡ variables name
  unfolding nth
  values_of-nth [] values n name h k = ground arith
  values_of-nth (x ∷ order) values zero name h k = ground arith
  values_of-nth (x ∷ order) values (suc zero) name h k =
      let (v, vs, e, l, p) = values_of-cons x order values h in
      rw (sym p) (sym e ∙ ap variables (ground arith))
  values_of-nth (x ∷ order) values (suc (suc n)) name h k =
      let (v, vs, e, l, p) = values_of-cons x order values h in
      rw (sym p) (values_of-nth order vs (suc n) name l k)

  fill-replace_variables :
      (ts : List Token) (order : List Chars) (values : List Value)
      → values_of variables missing (replace_variables ts order).1 ≡ ok values
      → fill values (replace_variables ts order).0 ≡ meaning variables ts
  unfolding fill meaning replace_variables
  fill-replace_variables [] order values h = refl
  fill-replace_variables (literal c ∷ ts) order values h =
      ap (λ x. text c ∷ x) (fill-replace_variables ts order values h)
  fill-replace_variables (variable name ∷ ts) order values h =
      let noted = note_name name order in
      let (more, e) = replace_variables-extends ts noted in
      let found =
        nth-append (index_of name noted + 1) noted more name
          (nth-index_of name noted (has_name-note_name name order)) in
      rw
        (
          values_of-nth (replace_variables ts noted).1 values (index_of name noted + 1) name h
              (rw e found),
          fill-replace_variables ts noted values h,
        )
        refl

  length-values_of :
      (order : List Chars) (values : List Value)
      → values_of variables missing order ≡ ok values
      → length values ≡ length order
  unfolding values_of
  length-values_of [] values h = ground arith
  length-values_of (x ∷ order) values h =
      let (v, vs, e, l, p) = values_of-cons x order values h in
      rw (sym p) (omega (arith, length-values_of order vs l))

  -- The text of the safe query is that of a list of characters and places, where the places are numbered from
  -- 1 to the number of the values at most, and filling them with the values gives the template with each
  -- variable replaced by its own value. That the database reads these places in the text is not stated:
  -- a digit that follows a variable, or a `$1` of the template, can be taken for a part of a place.
  pub to_safe_pg_query-fill :
      (template query : Chars) (values : List Value)
      → to_safe_pg_query variables missing template ≡ ok (query, values)
      → (pieces : List Piece) × (write_query pieces ≡ query)
        × (fill values pieces ≡ meaning variables (tokens 0 template))
        × All (IsWithin (length values)) pieces
  unfolding to_safe_pg_query
  to_safe_pg_query-fill template query values h =
      let ts = tokens 0 template in
      elim (Result-cases (values_of variables missing (replace_variables ts []).1)) [
        | inl (vs, k) ↦
            let p : write_query (replace_variables ts []).0 ≡ query = ground (arith, k) in
            let q : vs ≡ values = ground (arith, k) in
            rw (sym q) (
              (replace_variables ts []).0,
              p,
              fill-replace_variables ts [] vs k,
              rw (length-values_of (replace_variables ts []).1 vs k)
                  (replace_variables-IsWithin ts []),
            )
        | inr (e, k) ↦ ground (arith, k)
      ]
