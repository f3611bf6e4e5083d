-- ===== src/Scripts.antt =====
-- runner/src/utils/typescript-utils.ts and frontend/src/lib/typescript-utils.ts: what the program reads off a script. The
-- compiler is a parameter: a tree is what `ts.createSourceFile` gives, by what is read of each node, with
-- the children that `ts.forEachChild` goes through.
pub mod Folds
pub mod Returned
pub mod Laws
mod Tests
use Prim.Native.String
use supallm.Common.{
  ℕ, ◌+◌, String, Bool, true, false, Option, none, some, List, [], ◌∷◌, ◌++◌, Result, ok, error,
  ◌>>=◌, ◌==◌, ◌||◌, if◌then◌else◌, has, map, filter, not,
}

-- The initializer of a variable: a call, by the identifier that is called and the arguments that are string
-- literals, or another expression.
pub data Initializer : Type 0 where
  call : Option String → List (Option String) → Initializer
  other_initializer : Initializer

pub data TypeShape : Type 0 where
  tuple union : List String → TypeShape
  array type_literal other_shape : TypeShape

pub record TypeNode : Type 0 where
  pub text : String
  pub shape : TypeShape

pub record Parameter : Type 0 where
  pub name : String
  pub type : Option TypeNode

pub data Property : Type 0 where
  assignment : Option String → Property
  shorthand : String → Property
  other_property : Property

pub data Expression : Type 0 where
  object_literal : List Property → Expression
  other_expression : Expression

-- A statement of a function's body: a return, with where it begins and ends, or another one.
pub data Statement : Type 0 where
  return_statement : Option Expression → ℕ → ℕ → Statement
  other_statement : Statement

pub record Function : Type 0 where
  pub name : Option String
  pub parameters : List Parameter
  pub body : Option (List Statement)
  pub start : ℕ
  pub stop : ℕ

pub data Kind : Type 0 where
  import_declaration : String → Kind
  variable_statement : List (Option Initializer) → Kind
  function_declaration : Function → Kind
  other_kind : Kind

mutual
  pub data Node : Type 0 where
    node : Kind → Nodes → Node

  pub data Nodes : Type 0 where
    none_left : Nodes
    child : Node → Nodes → Nodes

-- `visit`: what is done with a node, then `ts.forEachChild(node, visit)`.
unfoldable mutual
  pub walk : {S : Type 0} → (Kind → S → S) → Node → S → S
  walk f (node kind children) s = walk_children f children (f kind s)

  pub walk_children : {S : Type 0} → (Kind → S → S) → Nodes → S → S
  walk_children f none_left s = s
  walk_children f (child n ns) s = walk_children f ns (walk f n s)

-- `ts.isCallExpression(undefined)` reads a property of `undefined`.
pub data ScriptError : Type 0 where
  no_initializer : ScriptError

-- The module that a declaration requires, if it is `... = require("...")`.
unfoldable pub required : Initializer → List String
required (call (some name) (some text ∷ [])) = if name == "require" then text ∷ [] else []
required _ = []

unfoldable pub note_declarations :
    List (Option Initializer) → List String → Result (List String) ScriptError
unfolding required
note_declarations [] modules = ok modules
note_declarations (none ∷ ds) modules = error no_initializer
note_declarations (some i ∷ ds) modules = note_declarations ds (modules ++ required i)

unfoldable pub note_modules :
    Kind → Result (List String) ScriptError → Result (List String) ScriptError
unfolding note_declarations
note_modules kind (error e) = error e
note_modules (import_declaration name) (ok modules) = ok (modules ++ name ∷ [])
note_modules (variable_statement ds) (ok modules) = note_declarations ds modules
note_modules (function_declaration f) (ok modules) = ok modules
note_modules other_kind (ok modules) = ok modules

unfoldable pub parse_code_for_required_modules : Node → Result (List String) ScriptError
unfolding walk note_modules
parse_code_for_required_modules source = walk note_modules source (ok [])

unfoldable pub is_named : String → Function → Bool
is_named function_name f = elim f.name [ none ↦ false | some name ↦ name == function_name ]

unfoldable pub note_main : Kind → Bool → Bool
unfolding is_named
note_main (function_declaration f) found = is_named "main" f || found
note_main kind found = found

unfoldable pub validate_main_function_exists : Node → Bool
unfolding walk note_main
validate_main_function_exists source = walk note_main source false

abbrev type_script_types : List String
type_script_types =
    "number" ∷ "string" ∷ "object" ∷ "boolean" ∷ "any" ∷ "void" ∷ "unknown" ∷ "undefined" ∷ []

abbrev join : String → List String → String
join separator [] = ""
join separator (s ∷ []) = s
join separator (s ∷ t ∷ ts) = String.◌++◌ s (String.◌++◌ separator (join separator (t ∷ ts)))

unfoldable pub type_name : Option TypeNode → String
unfolding has
type_name none = "any"
type_name (some t) = if has t.text type_script_types then t.text else elim t.shape [
  | tuple elements ↦ String.◌++◌ "[" (String.◌++◌ (join ", " elements) "]")
  | array ↦ "array"
  | type_literal ↦ "object"
  | union types ↦ join " | " types
  | other_shape ↦ "any"
]

-- The inputs of a script, with their types.
unfoldable pub note_inputs : Kind → List (String × String) → List (String × String)
unfolding is_named type_name
note_inputs (function_declaration f) inputs =
    if is_named "main" f
    then inputs ++ map (λ p. (p.name, type_name p.type)) f.parameters
    else inputs
note_inputs kind inputs = inputs

unfoldable pub parse_code_for_inputs : Node → List (String × String)
unfolding walk note_inputs
parse_code_for_inputs source = walk note_inputs source []

unfoldable pub property_name : Property → String
property_name (assignment (some name)) = name
property_name (assignment none) = ""
property_name (shorthand name) = name
property_name other_property = ""

-- The keys of the returned object, after the statements of a body: the last object literal counts.
unfoldable pub note_returns : List Statement → List String → List String
unfolding property_name
note_returns [] keys = keys
note_returns (return_statement (some (object_literal ps)) start stop ∷ ss) keys =
    note_returns ss (filter (λ k. not (k == "")) (map property_name ps))
note_returns (return_statement _ start stop ∷ ss) keys = note_returns ss keys
note_returns (other_statement ∷ ss) keys = note_returns ss keys

abbrev pub body_of : Option (List Statement) → List Statement
body_of none = []
body_of (some ss) = ss

unfoldable pub note_output : String → Kind → List String → List String
unfolding is_named note_returns
note_output function_name (function_declaration f) keys =
    if is_named function_name f then note_returns (body_of f.body) keys else keys
note_output function_name kind keys = keys

unfoldable pub parse_function_output : String → Node → List String
unfolding walk note_output
parse_function_output function_name source = walk (note_output function_name) source []

-- Where the last `return` of a body begins and ends.
unfoldable pub last_return : List Statement → ℕ × ℕ → ℕ × ℕ
last_return [] lines = lines
last_return (return_statement e start stop ∷ ss) lines = last_return ss (start, stop)
last_return (other_statement ∷ ss) lines = last_return ss lines

unfoldable pub note_lines : String → Kind → Option (ℕ × ℕ) → Option (ℕ × ℕ)
unfolding is_named last_return
note_lines function_name (function_declaration f) lines =
    if is_named function_name f
    then some (last_return (body_of f.body) (f.start, f.stop))
    else lines
note_lines function_name kind lines = lines

-- `line_of`: the line of a position, from 0.
unfoldable pub get_function_return_lines : (ℕ → ℕ) → String → Node → ℕ × ℕ
unfolding walk note_lines
get_function_return_lines line_of function_name source =
    elim (walk (note_lines function_name) source none) [
      | none ↦ (0, 0)
      | some (start, stop) ↦ (line_of start + 1, line_of stop + 1)
    ]
