-- ===== src/Frontend/Editor.antt =====
-- The flow editor: frontend/src/app/builder/chat-flow/[id]/page.tsx, and of frontend/src/components/builder/nodes
-- common/base-node.tsx, fixed/entrypoint-node.tsx, fixed/result-node.tsx and fixed/new-handle-input.tsx. What
-- xyflow does with edges is the interface `EdgeStore`.
pub mod Ghosts
pub mod Connections
pub mod Handlings
pub mod Saving
mod Tests
use supallm.Common.{
  ℕ, String, Bool, true, false, Option, none, some, List, [], ◌∷◌, ◌++◌, ◌≡◌, Result, ok, error,
  ◌>>=◌, ◌==◌, ◌&&◌, ◌||◌, not, if◌then◌else◌, map, filter, has,
}
use supallm.Common.Chars.{Chars, codes}
use supallm.Tools.Postgres.{same_name}
use supallm.Frontend.Handles.{
  LabeledHandleType, HandleError, parse_handle_id, generate_handle_id, sanitize_handle_label,
}

-- An edge, with the handles that it is attached to, where there are any.
pub record Edge : Type 0 where
  pub id : String
  pub source : String
  pub target : String
  pub source_handle : Option Chars
  pub target_handle : Option Chars

pub record Handle : Type 0 where
  pub type : LabeledHandleType
  pub id : Chars
  pub label : Chars

-- `getConnectedEdges` and `deleteElements`: the edges at a node, and what is left without some edges, which
-- are told by their ids.
pub record EdgeStore : Type 0 where
  pub connected_edges : String → List Edge → List Edge
  pub delete_elements : List Edge → List Edge → List Edge
  pub connected :
      (node_id : String) (es : List Edge)
      → connected_edges node_id es ≡ filter (λ e. e.source == node_id || e.target == node_id) es
  pub deleted :
      (gone es : List Edge)
      → delete_elements gone es ≡ filter (λ e. not (has e.id (map (λ g. g.id) gone))) es

-- `handles.find((handle) => handle.id === edge.sourceHandle)`
unfoldable pub has_handle : Option Chars → List Handle → Bool
unfolding same_name
has_handle none hs = false
has_handle (some id) [] = false
has_handle (some id) (h ∷ hs) =
    let rest = has_handle (some id) hs in if same_name h.id id then true else rest

-- The handles of a node, by where they stand.
pub record NodeHandles : Type 0 where
  pub inputs : List Handle
  pub configs : List Handle
  pub capabilities : List Handle
  pub outputs : List Handle

unfoldable pub is_ghost_source : NodeHandles → Edge → Bool
unfolding has_handle
is_ghost_source hs e =
    not (has_handle e.source_handle hs.inputs)
    && not (has_handle e.source_handle hs.configs)
    && not (has_handle e.source_handle hs.capabilities)

unfoldable pub is_ghost_target : NodeHandles → Edge → Bool
unfolding has_handle
is_ghost_target hs e =
    not (has_handle e.target_handle hs.outputs) && not (has_handle e.target_handle hs.capabilities)

-- The effect of `BaseNode` after its handles have changed.
unfoldable pub delete_ghost_edges : EdgeStore → String → NodeHandles → List Edge → List Edge
unfolding is_ghost_source is_ghost_target
delete_ghost_edges store node_id hs es =
    let connected = store.connected_edges node_id es in
    store.delete_elements
      (filter (is_ghost_source hs) (filter (λ e. e.source == node_id) connected)
        ++ filter (is_ghost_target hs) (filter (λ e. e.target == node_id) connected))
      es

abbrev is_any : Chars → Bool
is_any type = same_name type (codes "any")

-- The code takes an empty handle for none.
abbrev pub handle_given : Option Chars → Option Chars
handle_given none = none
handle_given (some []) = none
handle_given (some (c ∷ id)) = some (c ∷ id)

abbrev pub types_connect : Chars → Chars → Bool
types_connect a b = if is_any a || is_any b then true else same_name a b

-- `isValidConnection`; a handle's id that cannot be parsed is an exception.
unfoldable pub is_valid_connection : Edge → Result Bool HandleError
unfolding parse_handle_id same_name codes
is_valid_connection e = elim (handle_given e.source_handle) [
  | none ↦ ok (not (e.source == e.target))
  | some source ↦ elim (handle_given e.target_handle) [
    | none ↦ ok (not (e.source == e.target))
    | some target ↦ parse_handle_id source >>= λ s. parse_handle_id target >>= λ t.
        if e.source == e.target then ok false else ok (types_connect s.0 t.0)
  ]
]

-- The handles before the first one with an id, and whether there is one.
unfoldable pub before : Chars → List Handle → List Handle × Bool
unfolding same_name
before id [] = ([], false)
before id (h ∷ hs) =
    let (front, found) = before id hs in
    if same_name h.id id then ([], true) else (h ∷ front, found)

-- `onHandleChange` of the entrypoint and of the result.
unfoldable pub on_handle_change : Handle → List Handle → List Handle
unfolding before
on_handle_change h hs = elim ((before h.id hs).1) [
  | false ↦ hs ++ h ∷ []
  | true ↦ (before h.id hs).0 ++ h ∷ []
]

unfoldable pub remove_handle : Chars → List Handle → List Handle
unfolding same_name
remove_handle id hs = filter (λ h. not (same_name h.id id)) hs

-- `submit` of the input of a new handle.
unfoldable pub submit : LabeledHandleType → Chars → List Handle → List Handle
unfolding generate_handle_id sanitize_handle_label on_handle_change
submit type [] hs = hs
submit type (c ∷ label) hs =
    on_handle_change
      (record {
        type = type;
        label = sanitize_handle_label (c ∷ label);
        id = generate_handle_id type (c ∷ label);
      })
      hs
