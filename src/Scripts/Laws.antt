-- ===== src/Scripts/Laws.antt =====
-- What is read off a script, by the list of its nodes.
use supallm.Common.{
  String, Bool, true, false, Option, none, some, List, [], ◌∷◌, ◌++◌, ◌≡◌, ◌≢◌, ◌⊎◌, refl, sym, ap,
  ◌∙◌, ok, error, ◌||◌, if◌then◌else◌, map, every, Bool-cases, inl, inr,
}
use mathlib.Core.List.{append-nil, append_assoc}
use supallm.Scripts.{
  call, Kind, import_declaration, variable_statement, function_declaration, other_kind, Function,
  Node, node, Nodes, child, none_left, walk, walk_children, ScriptError, no_initializer, required,
  note_declarations, note_modules, parse_code_for_required_modules, is_named, note_main,
  validate_main_function_exists, type_name, note_inputs, parse_code_for_inputs, note_output,
  parse_function_output, Initializer,
}
use supallm.Scripts.Folds.{fold, fold-append, gather, fold-gather, last_of}
use supallm.Scripts.Returned.{required-call, objects_of, keys_or, keys_after, keys_after-last_of}

-- The nodes of a tree, each before its children.
unfoldable mutual
  pub descendants : Node → List Kind
  descendants (node kind children) = kind ∷ descendants_of children

  descendants_of : Nodes → List Kind
  descendants_of none_left = []
  descendants_of (child n ns) = descendants n ++ descendants_of ns

mutual
  unfolding walk descendants

  walk-fold :
      {S : Type 0} (f : Kind → S → S) (n : Node) (s : S) → walk f n s ≡ fold f (descendants n) s
  walk-fold f (node kind children) s = walk_children-fold f children (f kind s)

  walk_children-fold :
      {S : Type 0} (f : Kind → S → S) (ns : Nodes) (s : S)
      → walk_children f ns s ≡ fold f (descendants_of ns) s
  walk_children-fold f none_left s = refl
  walk_children-fold f (child n ns) s =
      walk_children-fold f ns (walk f n s)
      ∙ ap (fold f (descendants_of ns)) (walk-fold f n s)
      ∙ sym (fold-append f (descendants n) (descendants_of ns) s)

-- The variables of a statement all have an initializer.
unfoldable pub are_initialized : List (Option Initializer) → Bool
are_initialized [] = true
are_initialized (none ∷ ds) = false
are_initialized (some i ∷ ds) = are_initialized ds

unfoldable pub required_by : List (Option Initializer) → List String
unfolding required
required_by [] = []
required_by (none ∷ ds) = required_by ds
required_by (some i ∷ ds) = required i ++ required_by ds

unfoldable pub is_initialized : Kind → Bool
unfolding are_initialized
is_initialized (variable_statement ds) = are_initialized ds
is_initialized kind = true

-- The modules that a node imports or requires itself.
unfoldable pub modules_of : Kind → List String
unfolding required_by
modules_of (import_declaration name) = name ∷ []
modules_of (variable_statement ds) = required_by ds
modules_of kind = []

-- The functions of a name, wherever they stand.
unfoldable pub functions_of : String → Kind → List Function
unfolding is_named
functions_of name (function_declaration f) = if is_named name f then f ∷ [] else []
functions_of name kind = []

note_declarations_lem :
    (ds : List (Option Initializer)) (modules : List String)
    → note_declarations ds modules
      ≡ (if are_initialized ds then ok (modules ++ required_by ds) else error no_initializer)
unfolding note_declarations are_initialized required_by
note_declarations_lem [] modules = ap ok (sym (append-nil modules))
note_declarations_lem (none ∷ ds) modules = refl
note_declarations_lem (some i ∷ ds) modules =
    rw
      (
        note_declarations_lem ds (modules ++ required i),
        append_assoc modules (required i) (required_by ds),
      )
      refl

note_modules-error : (ks : List Kind) (e : ScriptError) → fold note_modules ks (error e) ≡ error e
unfolding note_modules
note_modules-error [] e = refl
note_modules-error (k ∷ ks) e = note_modules-error ks e

note_modules_lem :
    (k : Kind) (modules : List String)
    → note_modules k (ok modules)
      ≡ (if is_initialized k then ok (modules ++ modules_of k) else error no_initializer)
unfolding note_modules is_initialized modules_of
note_modules_lem (import_declaration name) modules = refl
note_modules_lem (variable_statement ds) modules = note_declarations_lem ds modules
note_modules_lem (function_declaration f) modules = ap ok (sym (append-nil modules))
note_modules_lem other_kind modules = ap ok (sym (append-nil modules))

fold-note_modules :
    (ks : List Kind) (modules : List String)
    → fold note_modules ks (ok modules) ≡ (
        if every is_initialized ks
        then ok (modules ++ gather modules_of ks)
        else error no_initializer)
fold-note_modules [] modules = ap ok (sym (append-nil modules))
fold-note_modules (k ∷ ks) modules = elim (Bool-cases (is_initialized k)) [
  | inr e ↦ rw (note_modules_lem k modules, e) (note_modules-error ks no_initializer)
  | inl e ↦
      rw (note_modules_lem k modules, e)
        (rw (sym (append_assoc modules (modules_of k) (gather modules_of ks)))
          (fold-note_modules ks (modules ++ modules_of k)))
]

pub required_modules-gather :
    (source : Node)
    → parse_code_for_required_modules source ≡ (
        if every is_initialized (descendants source)
        then ok (gather modules_of (descendants source))
        else error no_initializer)
unfolding parse_code_for_required_modules
required_modules-gather source =
    walk-fold note_modules source (ok []) ∙ fold-note_modules (descendants source) []

-- The modules that a script needs are those that its import declarations and the variables of its variable
-- statements name, in the order of the text, nested nodes included; a variable names one if and only if it
-- is initialized by a call of `require` with that string as its one argument. But where a variable of a
-- variable statement, at any depth, has no initializer, the search throws.
pub parse_code_for_required_modules_lem :
    (source : Node) (i : Initializer)
    → (parse_code_for_required_modules source ≡ (
        if every is_initialized (descendants source)
        then ok (gather modules_of (descendants source))
        else error no_initializer))
      × (((m : String) × (i ≡ call (some "require") (some m ∷ [])) × (required i ≡ m ∷ []))
          ⊎ ((required i ≡ []) × ((m : String) → i ≢ call (some "require") (some m ∷ []))))
parse_code_for_required_modules_lem source i = (required_modules-gather source, required-call i)

fold-functions_of :
    {S : Type 0} (name : String) (F : Kind → S → S) (h : Function → S → S)
    → ((k : Kind) (s : S) → F k s ≡ fold h (functions_of name k) s)
    → (ks : List Kind) (s : S) → fold F ks s ≡ fold h (gather (functions_of name) ks) s
fold-functions_of name F h same [] s = refl
fold-functions_of name F h same (k ∷ ks) s =
    fold-functions_of name F h same ks (F k s)
    ∙ ap (fold h (gather (functions_of name) ks)) (same k s)
    ∙ sym (fold-append h (functions_of name k) (gather (functions_of name) ks) s)

-- What walking a tree does with the functions of a name.
walk-functions_of :
    {S : Type 0} (name : String) (F : Kind → S → S) (h : Function → S → S)
    → ((k : Kind) (s : S) → F k s ≡ fold h (functions_of name k) s)
    → (source : Node) (s : S)
    → walk F source s ≡ fold h (gather (functions_of name) (descendants source)) s
walk-functions_of name F h same source s =
    walk-fold F source s ∙ fold-functions_of name F h same (descendants source) s

abbrev pub not_empty : List Function → Bool
not_empty [] = false
not_empty (f ∷ fs) = true

abbrev pub inputs_of : Function → List (String × String)
inputs_of f = map (λ p. (p.name, type_name p.type)) f.parameters

abbrev pub found_one : Function → Bool → Bool
found_one f found = true

abbrev add_inputs : Function → List (String × String) → List (String × String)
add_inputs f inputs = inputs ++ inputs_of f

fold-found_one : (fs : List Function) (b : Bool) → fold found_one fs b ≡ (not_empty fs || b)
fold-found_one [] b = refl
fold-found_one (f ∷ fs) b = fold-found_one fs true ∙ any_true (not_empty fs)
  where
    any_true : (c : Bool) → (c || true) ≡ true
    any_true true = refl
    any_true false = refl

note_main-functions_of :
    (k : Kind) (b : Bool) → note_main k b ≡ fold found_one (functions_of "main" k) b
unfolding note_main functions_of
note_main-functions_of (function_declaration f) b = elim (Bool-cases (is_named "main" f)) [
  | inl e ↦ rw e refl
  | inr e ↦ rw e refl
]
note_main-functions_of (import_declaration name) b = refl
note_main-functions_of (variable_statement ds) b = refl
note_main-functions_of other_kind b = refl

note_inputs-functions_of :
    (k : Kind) (inputs : List (String × String))
    → note_inputs k inputs ≡ fold add_inputs (functions_of "main" k) inputs
unfolding note_inputs functions_of
note_inputs-functions_of (function_declaration f) inputs = elim (Bool-cases (is_named "main" f)) [
  | inl e ↦ rw e refl
  | inr e ↦ rw e refl
]
note_inputs-functions_of (import_declaration name) inputs = refl
note_inputs-functions_of (variable_statement ds) inputs = refl
note_inputs-functions_of other_kind inputs = refl

note_output-functions_of :
    (name : String) (k : Kind) (keys : List String)
    → note_output name k keys ≡ fold keys_after (functions_of name k) keys
unfolding note_output functions_of
note_output-functions_of name (function_declaration f) keys = elim (Bool-cases (is_named name f)) [
  | inl e ↦ rw e refl
  | inr e ↦ rw e refl
]
note_output-functions_of name (import_declaration n) keys = refl
note_output-functions_of name (variable_statement ds) keys = refl
note_output-functions_of name other_kind keys = refl

-- All that is read of `main` is read of every function of that name, wherever it stands in the script: there
-- is one if and only if the script is accepted, the inputs of the node are the parameters of all of them,
-- and its outputs are the keys, those that are not empty, of the last object that a `return` directly in the
-- body of one of them gives.
pub parse_code_for_inputs_lem :
    (source : Node)
    → let mains = gather (functions_of "main") (descendants source) in
      (validate_main_function_exists source ≡ not_empty mains)
      × (parse_code_for_inputs source ≡ gather inputs_of mains)
      × (parse_function_output "main" source ≡ keys_or [] (last_of (gather objects_of mains)))
unfolding validate_main_function_exists parse_code_for_inputs parse_function_output
parse_code_for_inputs_lem source =
    let mains = gather (functions_of "main") (descendants source) in
    (
      walk-functions_of "main" note_main found_one note_main-functions_of source false
          ∙ fold-found_one mains false
          ∙ or_false (not_empty mains),
      walk-functions_of "main" note_inputs add_inputs note_inputs-functions_of source []
          ∙ fold-gather add_inputs inputs_of mains [] (λ f inputs. refl),
      walk-functions_of "main" (note_output "main") keys_after (note_output-functions_of "main")
            source []
          ∙ keys_after-last_of mains,
    )
  where
    or_false : (c : Bool) → (c || false) ≡ c
    or_false true = refl
    or_false false = refl
