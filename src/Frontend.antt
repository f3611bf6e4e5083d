-- ===== src/Frontend.antt =====
-- The stores and the flow usecases of the web frontend: frontend/src/core/store/crud-store.ts,
-- frontend/src/core/store/flow.ts and frontend/src/core/usecases. An item is an object with an `id`. What the
-- services answer is an argument.
pub mod Laws
pub mod Handles
pub mod Editor
pub mod NodeTypes
pub mod Running
pub mod Results
pub mod Names
pub mod Hooks
pub mod AvailableNodes
pub mod Palette
pub mod CodeEditor
pub mod NewFlow
pub mod MockAuthProviderService
pub mod Accounts
mod Tests
use supallm.Common.{
  String, Bool, true, false, Option, none, some, List, [], ◌∷◌, ◌++◌, Result, ok, error, ◌==◌, not,
  map, filter, if◌then◌else◌,
}
use supallm.Values.{Value, str, undefined, Fields, end, field, get_field, spread}
use supallm.Nodes.{Error}

abbrev id_value : Value → String
id_value (str s) = s
id_value _ = ""

unfoldable pub id_of : Fields → String
id_of item = id_value (get_field "id" item)

-- `list.find((item) => item.id === id)`
unfoldable pub find : String → List Fields → Option Fields
unfolding id_of
find id [] = none
find id (item ∷ list) = let rest = find id list in if id_of item == id then some item else rest

-- `createCrudStore`: its actions on the list.
unfoldable pub add : Fields → List Fields → List Fields
add item list = list ++ item ∷ []

unfoldable pub patch_item : String → Fields → Fields → Fields
unfolding id_of spread
patch_item id changes item = if id_of item == id then spread item changes else item

unfoldable pub patch : String → Fields → List Fields → List Fields
unfolding patch_item
patch id changes list = map (patch_item id changes) list

unfoldable pub delete : String → List Fields → List Fields
unfolding id_of
delete id list = filter (λ item. not (id_of item == id)) list

unfoldable pub upsert : Fields → List Fields → List Fields
unfolding find patch add
upsert changes list = elim (find (id_of changes) list) [
  | some item ↦ patch (id_of changes) changes list
  | none ↦ add changes list
]

-- `useFlowStore` and `useCurrentFlowStore`
pub record Client : Type 0 where
  pub list : List Fields
  pub current_flow : Option Fields

-- `{ ...state.currentFlow, ...changes }`
unfoldable pub patch_current_flow : Fields → Option Fields → Option Fields
unfolding spread
patch_current_flow changes none = some (spread end changes)
patch_current_flow changes (some flow) = some (spread flow changes)

-- What each usecase does to the stores when the service has answered; where the service throws, nothing.
unfoldable pub create_flow : Result Fields Error → Client → Client
unfolding add
create_flow (ok flow) c = record c { list = add flow c.list }
create_flow (error e) c = c

unfoldable pub list_flows : Result (List Fields) Error → Client → Client
list_flows (ok flows) c = record c { list = flows }
list_flows (error e) c = c

-- Before the service is asked.
unfoldable pub begin_get_flow : Client → Client
begin_get_flow c = record c { current_flow = none }

unfoldable pub end_get_flow : Result (Option Fields) Error → Client → Client
end_get_flow (ok (some flow)) c = record c { current_flow = some flow }
end_get_flow (ok none) c = c
end_get_flow (error e) c = c

unfoldable pub end_patch_flow : String → Fields → Result (Unit {0}) Error → Client → Client
unfolding patch patch_current_flow
end_patch_flow id changes (ok _) c = record {
  list = patch id changes c.list;
  current_flow = patch_current_flow changes c.current_flow;
}
end_patch_flow id changes (error e) c = c

unfoldable pub end_delete_flow : String → Result (Unit {0}) Error → Client → Client
unfolding delete
end_delete_flow id (ok _) c = record c { list = delete id c.list }
end_delete_flow id (error e) c = c
