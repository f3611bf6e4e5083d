-- ===== src/Frontend/Editor/Tests.antt =====
-- An editor with three edges at an entrypoint of two handles.
use supallm.Common.{
  ℕ, false, none, some, List, [], ◌∷◌, ◌++◌, ◌≡◌, refl, ◌==◌, ◌||◌, not, map, filter, has, arith,
}
use supallm.Common.Chars.{codes}
use supallm.Tools.Postgres.{same_name}
use supallm.Frontend.Handles.{text}
use supallm.Frontend.Editor.{
  Edge, Handle, EdgeStore, has_handle, delete_ghost_edges, on_handle_change, submit, remove_handle,
}
use supallm.Frontend.Editor.Ghosts.{edge_ids, is_attached, delete_ghost_edges_lem}
use supallm.Frontend.Editor.Handlings.{outputs_only, on_handle_change-drops}
use supallm.Frontend.Editor.Saving.{
  Action, node_change, edge_change, connect, render, wait, opened, run, rendered, waited,
}
use supallm.Frontend.Editor.Saving.Current.{newest}
use supallm.Frontend.Editor.Saving.Finally.{nodes_after, edges_after, run-saves}

abbrev store : EdgeStore
store = record {
  connected_edges = λ node_id es. filter (λ e. e.source == node_id || e.target == node_id) es;
  delete_elements = λ gone es. filter (λ e. not (has e.id (map (λ g. g.id) gone))) es;
  connected = λ node_id es. refl;
  deleted = λ gone es. refl;
}

abbrev prompt : Handle
prompt = record { type = text; id = codes "text__prompt"; label = codes "prompt" }

abbrev question : Handle
question = record { type = text; id = codes "text__question"; label = codes "question" }

abbrev from_prompt : Edge
from_prompt = record {
  id = "1";
  source = "model";
  target = "start";
  source_handle = some (codes "text__in");
  target_handle = some (codes "text__prompt");
}

abbrev from_question : Edge
from_question = record from_prompt { id = "2"; target_handle = some (codes "text__question") }

entered_again : on_handle_change prompt (prompt ∷ question ∷ []) ≡ prompt ∷ []
unfolding on_handle_change codes
entered_again = refl

submitted : submit text (codes "prompt") [] ≡ prompt ∷ []
unfolding submit codes
submitted = refl

removed : remove_handle (codes "text__prompt") (prompt ∷ question ∷ []) ≡ question ∷ []
unfolding remove_handle codes
removed = refl

ghosts :
    delete_ghost_edges store "start" (outputs_only (prompt ∷ [])) (from_prompt ∷ from_question ∷ [])
    ≡ from_prompt ∷ []
unfolding delete_ghost_edges codes has
ghosts = refl

delete_ghost_edges_lem_example :
    delete_ghost_edges store "start" (outputs_only (prompt ∷ [])) (from_prompt ∷ from_question ∷ [])
    ≡ filter (is_attached "start" (outputs_only (prompt ∷ []))) (from_prompt ∷ from_question ∷ [])
unfolding has
delete_ghost_edges_lem_example =
    delete_ghost_edges_lem store "start" (outputs_only (prompt ∷ []))
      (from_prompt ∷ from_question ∷ []) (refl, (refl, tt))

on_handle_change-drops_example :
    let hs = on_handle_change prompt ([] ++ prompt ∷ question ∷ []) in
    (hs ≡ [] ++ prompt ∷ [])
    × (has "2" (
          edge_ids
            (delete_ghost_edges store "start" (outputs_only hs) (from_prompt ∷ from_question ∷ [])))
        ≡ false)
unfolding has has_handle same_name codes
on_handle_change-drops_example =
    on_handle_change-drops store "start" prompt prompt [] (question ∷ []) from_question
      (from_prompt ∷ []) [] refl refl (refl, (refl, tt)) refl refl

abbrev edits : List (Action ℕ ℕ)
edits =
    wait 500
    ∷ node_change (λ ns. some (7 ∷ ns))
    ∷ wait 600
    ∷ connect (λ es. some (8 ∷ es))
    ∷ render
    ∷ edge_change (λ es. none)
    ∷ []

run-saves_example :
    let s = waited 600 (rendered (run edits (opened (1 ∷ []) (2 ∷ []) "flow"))) in
    (s.timeout ≡ none)
    × (newest s.saves
        ≡ some (record {
          nodes = nodes_after edits (1 ∷ []);
          edges = edges_after edits (2 ∷ []);
          name = "flow";
        }))
run-saves_example = run-saves (1 ∷ []) (2 ∷ []) "flow" edits 600 (omega arith)
