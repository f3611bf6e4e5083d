-- ===== src/Scripts/Returned.antt =====
-- What a call requires, and what the functions of a script return.
use supallm.Common.{
  String, Option, none, some, List, [], ◌∷◌, ◌≡◌, ◌≢◌, refl, sym, ap, ◌∙◌, ◌⊎◌, inl, inr, ◌==◌, not,
  filter, map, if◌then◌else◌, Bool-cases, Option-cases, eq_iff, arith,
}
use supallm.Scripts.{
  Initializer, call, other_initializer, Function, Statement, return_statement, other_statement,
  Property, assignment, shorthand, other_property, object_literal, other_expression, required,
  property_name, note_returns, body_of,
}
use supallm.Scripts.Folds.{fold, fold-append, gather, last_of}

-- An initializer requires a module if it is a call of `require` with one argument, its name, and nothing
-- else does.
pub required-call :
    (i : Initializer)
    → ((m : String) × (i ≡ call (some "require") (some m ∷ [])) × (required i ≡ m ∷ []))
      ⊎ ((required i ≡ []) × ((m : String) → i ≢ call (some "require") (some m ∷ [])))
unfolding required
required-call other_initializer = inr (refl, λ m. cc)
required-call (call none args) = inr (refl, λ m. cc)
required-call (call (some name) []) = inr (refl, λ m. cc)
required-call (call (some name) (none ∷ args)) = inr (refl, λ m. cc)
required-call (call (some name) (some m ∷ a ∷ args)) = inr (refl, λ m. cc)
required-call (call (some name) (some m ∷ [])) = elim (Bool-cases (name == "require")) [
  | inl e ↦ inl (m, ap (λ n. call (some n) (some m ∷ [])) ((eq_iff name "require").0 e), rw e refl)
  | inr e ↦ inr (rw e refl, λ k same. ground (arith, eq_iff name "require", same))
]

-- The objects that the `return` statements of a body give, nested blocks aside.
unfoldable pub returned_objects : List Statement → List (List Property)
returned_objects [] = []
returned_objects (return_statement (some (object_literal ps)) start stop ∷ ss) =
    ps ∷ returned_objects ss
returned_objects (return_statement (some other_expression) start stop ∷ ss) = returned_objects ss
returned_objects (return_statement none start stop ∷ ss) = returned_objects ss
returned_objects (other_statement ∷ ss) = returned_objects ss

unfoldable pub objects_of : Function → List (List Property)
unfolding returned_objects
objects_of f = elim f.body [ none ↦ [] | some ss ↦ returned_objects ss ]

-- The name of a property, if it has one.
unfoldable pub key_of : Property → List String
key_of (assignment (some name)) = if name == "" then [] else name ∷ []
key_of (assignment none) = []
key_of (shorthand name) = if name == "" then [] else name ∷ []
key_of other_property = []

abbrev pub keys_or : List String → Option (List Property) → List String
keys_or keys none = keys
keys_or keys (some ps) = gather key_of ps

abbrev pub keys_after : Function → List String → List String
keys_after f keys = note_returns (body_of f.body) keys

abbrev note_object : List Property → List String → List String
note_object ps keys = gather key_of ps

property_name-key_of :
    (ps : List Property) → filter (λ k. not (k == "")) (map property_name ps) ≡ gather key_of ps
unfolding property_name key_of
property_name-key_of [] = refl
property_name-key_of (assignment (some name) ∷ ps) = elim (Bool-cases (name == "")) [
  | inl e ↦ rw (e, property_name-key_of ps) refl
  | inr e ↦ rw (e, property_name-key_of ps) refl
]
property_name-key_of (assignment none ∷ ps) = property_name-key_of ps
property_name-key_of (shorthand name ∷ ps) = elim (Bool-cases (name == "")) [
  | inl e ↦ rw (e, property_name-key_of ps) refl
  | inr e ↦ rw (e, property_name-key_of ps) refl
]
property_name-key_of (other_property ∷ ps) = property_name-key_of ps

note_returns-fold :
    (ss : List Statement) (keys : List String)
    → note_returns ss keys ≡ fold note_object (returned_objects ss) keys
unfolding note_returns returned_objects
note_returns-fold [] keys = refl
note_returns-fold (return_statement (some (object_literal ps)) start stop ∷ ss) keys =
    note_returns-fold ss (filter (λ k. not (k == "")) (map property_name ps))
    ∙ ap (fold note_object (returned_objects ss)) (property_name-key_of ps)
note_returns-fold (return_statement (some other_expression) start stop ∷ ss) keys =
    note_returns-fold ss keys
note_returns-fold (return_statement none start stop ∷ ss) keys = note_returns-fold ss keys
note_returns-fold (other_statement ∷ ss) keys = note_returns-fold ss keys

keys_after-fold :
    (f : Function) (keys : List String) → keys_after f keys ≡ fold note_object (objects_of f) keys
unfolding objects_of note_returns
keys_after-fold f keys = elim (Option-cases f.body) [
  | inl e ↦ rw (keys_after, e) refl
  | inr (ss, e) ↦ rw (keys_after, e) (note_returns-fold ss keys)
]

fold-objects_of :
    (fs : List Function) (keys : List String)
    → fold keys_after fs keys ≡ fold note_object (gather objects_of fs) keys
fold-objects_of [] keys = refl
fold-objects_of (f ∷ fs) keys =
    fold-objects_of fs (keys_after f keys)
    ∙ ap (fold note_object (gather objects_of fs)) (keys_after-fold f keys)
    ∙ sym (fold-append note_object (objects_of f) (gather objects_of fs) keys)

fold-last_of :
    (os : List (List Property)) (keys : List String)
    → fold note_object os keys ≡ keys_or keys (last_of os)
unfolding last_of
fold-last_of [] keys = refl
fold-last_of (o ∷ os) keys = elim (Option-cases (last_of os)) [
  | inl e ↦ rw e (fold-last_of os (gather key_of o) ∙ ap (keys_or (gather key_of o)) e)
  | inr (p, e) ↦ rw e (fold-last_of os (gather key_of o) ∙ ap (keys_or (gather key_of o)) e)
]

-- Going through the functions leaves the keys of the last object that they return.
pub keys_after-last_of :
    (fs : List Function) → fold keys_after fs [] ≡ keys_or [] (last_of (gather objects_of fs))
keys_after-last_of fs = fold-objects_of fs [] ∙ fold-last_of (gather objects_of fs) []
