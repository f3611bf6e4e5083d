-- ===== src/Frontend/Editor/Saving/Finally.antt =====
-- What the editor has saved in the end.
use supallm.Common.{
  ℕ, String, false, Option, none, some, List, [], ◌∷◌, ◌≡◌, refl, ap, ◌∙◌, ◌≤◌, Bool-cases,
  Option-cases, inl, inr,
}
use supallm.Frontend.Editor.Saving.{
  FlowPatch, Editor, on_save, set_nodes, set_edges, Action, node_change, edge_change, connect,
  render, wait, save_rendered, rendered, waited, step, opened, run, given_or,
}
use supallm.Frontend.Editor.Saving.Current.{
  newest, rendered_patch, IsCurrent, elapse-fires, run-IsCurrent, opened-IsCurrent,
  rendered-IsCurrent,
}

-- What the changes alone make of the nodes, and of the edges.
unfoldable pub nodes_after : {N E : Type 0} → List (Action N E) → List N → List N
nodes_after [] nodes = nodes
nodes_after (node_change update ∷ actions) nodes =
    nodes_after actions (given_or (update nodes) nodes)
nodes_after (edge_change update ∷ actions) nodes = nodes_after actions nodes
nodes_after (connect update ∷ actions) nodes = nodes_after actions nodes
nodes_after (render ∷ actions) nodes = nodes_after actions nodes
nodes_after (wait ms ∷ actions) nodes = nodes_after actions nodes

unfoldable pub edges_after : {N E : Type 0} → List (Action N E) → List E → List E
edges_after [] edges = edges
edges_after (node_change update ∷ actions) edges = edges_after actions edges
edges_after (edge_change update ∷ actions) edges =
    edges_after actions (given_or (update edges) edges)
edges_after (connect update ∷ actions) edges = edges_after actions (given_or (update edges) edges)
edges_after (render ∷ actions) edges = edges_after actions edges
edges_after (wait ms ∷ actions) edges = edges_after actions edges

set_nodes-next :
    {N E : Type 0} (update : List N → Option (List N)) (s : Editor N E)
    → ((set_nodes update s).next_nodes ≡ given_or (update s.next_nodes) s.next_nodes)
      × ((set_nodes update s).next_edges ≡ s.next_edges)
      × ((set_nodes update s).name ≡ s.name)
unfolding set_nodes
set_nodes-next update s = elim (Option-cases (update s.next_nodes)) [
  | inl k ↦ rw (set_nodes, k) (refl, refl, refl)
  | inr (nodes, k) ↦ rw (set_nodes, k) (refl, refl, refl)
]

set_edges-next :
    {N E : Type 0} (update : List E → Option (List E)) (s : Editor N E)
    → ((set_edges update s).next_edges ≡ given_or (update s.next_edges) s.next_edges)
      × ((set_edges update s).next_nodes ≡ s.next_nodes)
      × ((set_edges update s).name ≡ s.name)
unfolding set_edges
set_edges-next update s = elim (Option-cases (update s.next_edges)) [
  | inl k ↦ rw (set_edges, k) (refl, refl, refl)
  | inr (edges, k) ↦ rw (set_edges, k) (refl, refl, refl)
]

rendered-next :
    {N E : Type 0} (s : Editor N E)
    → ((rendered s).next_nodes ≡ s.next_nodes)
      × ((rendered s).next_edges ≡ s.next_edges)
      × ((rendered s).name ≡ s.name)
unfolding rendered save_rendered on_save
rendered-next s = elim (Bool-cases s.is_stale) [
  | inl e ↦ rw e (refl, refl, refl)
  | inr e ↦ rw e (refl, refl, refl)
]

-- What an editor will be rendered with is what the changes have made of it.
run-next :
    {N E : Type 0} (actions : List (Action N E)) (s : Editor N E)
    → ((run actions s).next_nodes ≡ nodes_after actions s.next_nodes)
      × ((run actions s).next_edges ≡ edges_after actions s.next_edges)
      × ((run actions s).name ≡ s.name)
unfolding run step nodes_after edges_after on_save waited
run-next [] s = (refl, refl, refl)
run-next (node_change update ∷ actions) s =
    let (n, e, m) = set_nodes-next update s in
    let (ns, es, ms) = run-next actions (on_save none none (set_nodes update s)) in
    (ns ∙ ap (nodes_after actions) n, es ∙ ap (edges_after actions) e, ms ∙ m)
run-next (edge_change update ∷ actions) s =
    let (e, n, m) = set_edges-next update s in
    let (ns, es, ms) = run-next actions (on_save none none (set_edges update s)) in
    (ns ∙ ap (nodes_after actions) n, es ∙ ap (edges_after actions) e, ms ∙ m)
run-next (connect update ∷ actions) s =
    let (e, n, m) = set_edges-next update s in
    let (ns, es, ms) = run-next actions (set_edges update s) in
    (ns ∙ ap (nodes_after actions) n, es ∙ ap (edges_after actions) e, ms ∙ m)
run-next (render ∷ actions) s =
    let (n, e, m) = rendered-next s in
    let (ns, es, ms) = run-next actions (rendered s) in
    (ns ∙ ap (nodes_after actions) n, es ∙ ap (edges_after actions) e, ms ∙ m)
run-next (wait t ∷ actions) s = run-next actions (waited t s)

-- After a rendering, nothing is stale.
rendered-is_stale : {N E : Type 0} (s : Editor N E) → (rendered s).is_stale ≡ false
unfolding rendered save_rendered on_save
rendered-is_stale s = elim (Bool-cases s.is_stale) [ inl e ↦ rw e refl | inr e ↦ rw e refl ]

patch-next :
    {N E : Type 0} (s : Editor N E)
    → s.next_nodes ≡ s.nodes
    → s.next_edges ≡ s.edges
    → rendered_patch s ≡ record { nodes = s.next_nodes; edges = s.next_edges; name = s.name }
patch-next s n e = rw (n, e) refl

same_patch :
    {N E : Type 0} {nodes nodes' : List N} {edges edges' : List E} {name name' : String}
    → nodes ≡ nodes'
    → edges ≡ edges'
    → name ≡ name'
    → Path
        (FlowPatch N E)
        (record { nodes = nodes; edges = edges; name = name })
        (record { nodes = nodes'; edges = edges'; name = name' })
same_patch n e m = λ i. record { nodes = n i; edges = e i; name = m i }

waited-saves :
    {N E : Type 0} (ms : ℕ) (s : Editor N E)
    → IsCurrent s
    → s.is_stale ≡ false
    → 600 ≤ ms
    → ((waited ms s).timeout ≡ none)
      × (newest (waited ms s).saves
          ≡ some (record { nodes = s.next_nodes; edges = s.next_edges; name = s.name }))
unfolding IsCurrent waited
waited-saves ms s (left, kept) e k =
    let (noted_now, n, m) = kept e in
    let (fired, saved) = elapse-fires ms s.timeout s.saves left k in
    (fired, saved ∙ noted_now ∙ ap some (patch-next s n m))

-- However nodes and edges have been changed, in whatever order with renderings and pauses: once the editor
-- has been rendered again and 600 ms have gone by, no timeout is left, and what was saved last is what the
-- changes, all of them in their order, have made of the opened flow, with the flow's name.
pub run-saves :
    {N E : Type 0} (nodes : List N) (edges : List E) (name : String) (actions : List (Action N E))
    (ms : ℕ)
    → 600 ≤ ms
    → let s = waited ms (rendered (run actions (opened nodes edges name))) in
      (s.timeout ≡ none)
      × (newest s.saves
          ≡ some (record {
            nodes = nodes_after actions nodes;
            edges = edges_after actions edges;
            name = name;
          }))
unfolding opened save_rendered on_save
run-saves nodes edges name actions ms k =
    let first = opened nodes edges name in
    let s = run actions first in
    let (n, e, m) = rendered-next s in
    let (ns, es, names) = run-next actions first in
    let current =
      rendered-IsCurrent s (run-IsCurrent actions first (opened-IsCurrent nodes edges name)) in
    let (fired, saved) = waited-saves ms (rendered s) current (rendered-is_stale s) k in
    (fired, saved ∙ ap some (same_patch (n ∙ ns) (e ∙ es) (m ∙ names)))
