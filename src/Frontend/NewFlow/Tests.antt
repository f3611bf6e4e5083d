-- ===== src/Frontend/NewFlow/Tests.antt =====
-- A new flow, and the connection of its two nodes.
use supallm.Common.{true, some, none, [], ◌∷◌, ◌≡◌, refl, ok}
use supallm.Common.Chars.{codes}
use supallm.Values.{str, end, field}
use supallm.Frontend.{Client}
use supallm.Frontend.Names.{Draw}
use supallm.Frontend.Handles.{text, generate_handle_id}
use supallm.Frontend.Editor.{is_valid_connection}
use supallm.Frontend.NewFlow.{execute}

abbrev lowest : Draw
lowest = record { floor_of_random = λ n. 0; floor_of_random-lt = λ n h. h }

abbrev no_flows : Client
no_flows = record { list = []; current_flow = none }

added :
    execute lowest lowest (λ flow. ok (field "id" (str flow.project_id) end)) "p" no_flows
    ≡ record no_flows { list = field "id" (str "p") end ∷ [] }
unfolding execute
added = refl

-- The input of a new flow may be connected to its result.
connected :
    is_valid_connection (record {
      id = "1";
      source = "result-node";
      target = "entrypoint-node";
      source_handle = some (generate_handle_id text (codes "result"));
      target_handle = some (generate_handle_id text (codes "prompt"));
    })
    ≡ ok true
unfolding is_valid_connection generate_handle_id codes
connected = refl
