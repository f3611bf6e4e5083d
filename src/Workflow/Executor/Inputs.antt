-- ===== src/Workflow/Executor/Inputs.antt =====
-- When the inputs of a ready node can be resolved.
use mathlib.Core.Option
use supallm.Common.{
  String, true, false, Bool, none, some, [], ◌∷◌, Dict, get, keys, has, Result, ok, error, ◌≡◌,
  refl, arith, Bool-cases, Option-cases, Result-cases, inl, inr, ◌⊎◌, IsUnique, ◌==◌, ◌∙◌, ap,
}
use supallm.Values.{Value, Fields, end}
use supallm.Nodes.{NodeInputDef, NodeDefinition, Error, entrypoint_not_found}
use supallm.Context.{
  NodeExecution, ExecutionContext, source_node, node, entrypoint_execution, resolve_source,
  resolve_plain, resolve_input, resolve_all, resolve_inputs, find_ready_nodes,
}
use supallm.Workflow.Graph.{input_source, sources, build_dependency_graph}
use supallm.Workflow.Graph.Laws.{FedBy, get-build_dependency_graph, sources_lem}
use supallm.Workflow.Executor.Invariant.{IsValid}
use supallm.Workflow.Executor.Marking.{find_ready_nodes-facts}
use supallm.Workflow.Executor.Cycles.{is_ready-dependency}

-- The node has an execution in the context.
abbrev pub HasRun : ExecutionContext → String → Type 0
HasRun c id = (e : NodeExecution) × (get id c.node_executions ≡ some e)

-- Every input names a source that is not empty.
abbrev pub AllSourced : Dict NodeInputDef → Type 0
AllSourced [] = Unit
AllSourced ((_, input) ∷ inputs) =
    ((s : String) × (input.source ≡ some s) × ((s == "") ≡ false)) × AllSourced inputs

abbrev is_ok : Result Fields Error → Bool
is_ok (ok fs) = true
is_ok (error e) = false

eq-ok_of_is_ok : (r : Result Fields Error) → is_ok r ≡ true → (fs : Fields) × (r ≡ ok fs)
eq-ok_of_is_ok (ok fs) h = (fs, refl)
eq-ok_of_is_ok (error e) h = absurd (cc)

module _ (c : ExecutionContext) where
  resolve_source-ok :
      (name s : String) (resolved : Fields)
      → ((id : String) → source_node s ≡ some id → HasRun c id)
      → is_ok (resolve_source c name s resolved) ≡ true
  unfolding resolve_source node
  resolve_source-ok name s resolved run = elim (Option-cases (source_node s)) [
    | inl e ↦ ground (arith, e)
    | inr (id, e) ↦ let (x, found) = run id e in ground (arith, e, found)
  ]

  resolve_plain-ok :
      (name : String) (value : Value) (resolved : Fields)
      → HasRun c "entrypoint-node"
      → is_ok (resolve_plain c name value resolved) ≡ true
  unfolding resolve_plain entrypoint_execution
  resolve_plain-ok name value resolved (x, found) = ground (arith, found)

  resolve_input-ok :
      (name : String) (input : NodeInputDef) (resolved : Fields)
      → ((id : String) → input_source input ≡ some id → HasRun c id)
      → ((s : String) × (input.source ≡ some s) × ((s == "") ≡ false)) ⊎ HasRun c "entrypoint-node"
      → is_ok (resolve_input c name input resolved) ≡ true
  unfolding resolve_input input_source
  resolve_input-ok name input resolved run other = elim (Option-cases input.source) [
    | inl e ↦ elim other [
      | inl (s, e', _) ↦ absurd (cc)
      | inr begun ↦ ground (arith, e, resolve_plain-ok name input.value resolved begun)
    ]
    | inr (s, e) ↦ elim (Bool-cases (s == "")) [
      | inl empty ↦ elim other [
        | inl (s', e', full) ↦ absurd (ground arith)
        | inr begun ↦ ground (arith, e, empty, resolve_plain-ok name input.value resolved begun)
      ]
      | inr full ↦ ground (
        arith,
        e,
        full,
        resolve_source-ok name s resolved (λ id h. run id (ground (arith, e, full, h))),
      )
    ]
  ]

  resolve_all-ok :
      (inputs : Dict NodeInputDef) (resolved : Fields)
      → ((id : String) → FedBy id inputs → HasRun c id)
      → AllSourced inputs ⊎ HasRun c "entrypoint-node"
      → is_ok (resolve_all c inputs resolved) ≡ true
  unfolding resolve_all
  resolve_all-ok [] resolved run other = refl
  resolve_all-ok ((name, input) ∷ inputs) resolved run other =
      let (fs, e) = eq-ok_of_is_ok (resolve_input c name input resolved) (
        resolve_input-ok name input resolved (λ id h. run id (inl h))
          (elim other [ inl (h, hs) ↦ inl h | inr begun ↦ inr begun ])) in
      rw e (
        resolve_all-ok inputs fs (λ id h. run id (inr h))
          (elim other [ inl (h, hs) ↦ inl hs | inr begun ↦ inr begun ]))

-- A ready node never fails on its sources: in a valid context all of them have run, so that the inputs
-- are resolved if each names a source, or if the entrypoint has run.
pub ready-resolves :
    (nodes : Dict NodeDefinition) (c : ExecutionContext) (id : String) (definition : NodeDefinition)
    → IsUnique (keys nodes)
    → get id nodes ≡ some definition
    → IsValid (build_dependency_graph nodes) c
    → has id (find_ready_nodes c (build_dependency_graph nodes)) ≡ true
    → ((inputs : Dict NodeInputDef)
        → definition.inputs ≡ some inputs
        → AllSourced inputs ⊎ HasRun c "entrypoint-node")
    → (fs : Fields) × (resolve_inputs c id definition ≡ ok fs)
unfolding resolve_inputs
ready-resolves nodes c id definition unique found v ready other =
    let deps = build_dependency_graph nodes in
    let (_, _, is_r) = find_ready_nodes-facts deps c id ready in
    let graph : get id deps ≡ some (sources definition) =
      get-build_dependency_graph nodes id unique ∙ ap (Option.map sources) found in
    eq-ok_of_is_ok (resolve_inputs c id definition) (elim (Option-cases definition.inputs) [
      | inl e ↦ ground (arith, e)
      | inr (inputs, e) ↦
          let (_, feeds) = sources_lem definition inputs e in
          let run : (s : String) → FedBy s inputs → HasRun c s = λ s fed.
            let done =
              is_ready-dependency deps c id s (sources definition) is_r graph ((feeds s).1 fed) in
            let (x, recorded, _) = v.executed s done in (x, recorded) in
          ground (arith, e, resolve_all-ok c inputs end run (other inputs e))
    ])

-- Some input names no source.
abbrev pub SomePlain : Dict NodeInputDef → Type 0
SomePlain [] = ⊥
SomePlain ((_, input) ∷ inputs) = (input.source ≡ none) ⊎ SomePlain inputs

-- An input with no source asks for the entrypoint's execution first, also where the definition gives
-- its value: as long as the entrypoint has not run, resolving the inputs of another node that has
-- such an input throws.
pub resolve_inputs_before_entrypoint :
    (c : ExecutionContext) (id : String) (definition : NodeDefinition) (inputs : Dict NodeInputDef)
    → (id == "entrypoint-node") ≡ false
    → definition.inputs ≡ some inputs
    → SomePlain inputs
    → get "entrypoint-node" c.node_executions ≡ none
    → (e : Error) × (resolve_inputs c id definition ≡ error e)
unfolding resolve_inputs
resolve_inputs_before_entrypoint c id definition inputs other e plain absent =
    let (x, h) = throws inputs end plain in (x, ground (arith, other, e, h))
  where
    throws :
        (inputs' : Dict NodeInputDef) (resolved : Fields)
        → SomePlain inputs'
        → (x : Error) × (resolve_all c inputs' resolved ≡ error x)
    throws [] resolved h = absurd h
    throws ((name, input) ∷ inputs') resolved h = elim h [
      | inl p ↦ (entrypoint_not_found, ground (arith, p, absent))
      | inr hs ↦ elim (Result-cases (resolve_input c name input resolved)) [
        | inl (fs, e) ↦ let (x, k) = throws inputs' fs hs in (x, rw e k)
        | inr (x, e) ↦ (x, rw e)
      ]
    ]
