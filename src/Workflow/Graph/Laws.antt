-- ===== src/Workflow/Graph/Laws.antt =====
-- What `build_dependency_graph` builds.
use mathlib.Core.Option
use supallm.Common.{
  String, true, none, some, List, [], ◌∷◌, ◌++◌, Dict, get, set, keys, has, add, ◌==◌,
  if◌then◌else◌, ◌≡◌, refl, arith, eq_iff, get-set, IsUnique, inl, inr, eq_refl, has-add, All,
  get-eq-none_of_has, has-keys_of_none, All-of_has, Option-cases, ◌↔◌, ◌⊎◌, false, IsUnique-add,
}
use supallm.Nodes.{NodeInputDef, NodeDefinition}
use supallm.Workflow.Graph.{
  input_source, push, push_source, push_sources, no_dependencies, visit_nodes,
  build_dependency_graph, sources_from, sources,
}

abbrev add_source : NodeInputDef → List String → List String
add_source input deps = elim (input_source input) [ none ↦ deps | some s ↦ add s deps ]

module _ (id j : String) where
  get-push :
      (s : String) (ds : Dict (List String)) (deps : List String)
      → get id ds ≡ some deps
      → get j (push id s ds) ≡ (if id == j then some (add s deps) else get j ds)
  unfolding push add
  get-push s ds deps h = ground (arith, eq_iff id j, get-set id j (deps ++ s ∷ []) ds)

  get-push_source :
      (input : NodeInputDef) (ds : Dict (List String)) (deps : List String)
      → get id ds ≡ some deps
      → get j (push_source id input ds)
        ≡ (if id == j then some (add_source input deps) else get j ds)
  unfolding push_source
  get-push_source input ds deps h =
      elim (input_source input)
        as (λ o.
          get j (elim o [ none ↦ ds | some s ↦ push id s ds ])
          ≡ (if id == j then some (elim o [ none ↦ deps | some s ↦ add s deps ]) else get j ds)) [
            | none ↦ ground (arith, eq_iff id j)
            | some s ↦ get-push s ds deps h
          ]

module _ (id : String) where
  get-push_sources :
      (j : String) (inputs : Dict NodeInputDef) (ds : Dict (List String)) (deps : List String)
      → get id ds ≡ some deps
      → get j (push_sources id inputs ds)
        ≡ (if id == j then some (sources_from deps inputs) else get j ds)
  unfolding push_sources sources_from
  get-push_sources j [] ds deps h = ground (arith, eq_iff id j)
  get-push_sources j ((n, input) ∷ inputs) ds deps h = ground (
    arith,
    eq_iff id j,
    eq_refl id,
    get-push_source id j input ds deps h,
    get-push_source id id input ds deps h,
    get-push_sources j inputs (push_source id input ds) (add_source input deps),
  )

abbrev visited : String → NodeDefinition → Dict (List String) → Dict (List String)
visited id node ds = elim node.inputs [ none ↦ ds | some inputs ↦ push_sources id inputs ds ]

get-visited :
    (id j : String) (node : NodeDefinition) (ds : Dict (List String))
    → get id ds ≡ some []
    → get j (visited id node ds) ≡ (if id == j then some (sources node) else get j ds)
unfolding sources
get-visited id j node ds h =
    elim node.inputs
      as (λ o. get j (elim o [ none ↦ ds | some inputs ↦ push_sources id inputs ds ]) ≡ (
        if id == j
        then some (elim o [ none ↦ [] | some inputs ↦ sources_from [] inputs ])
        else get j ds)) [
          | none ↦ ground (arith, eq_iff id j)
          | some inputs ↦ get-push_sources id j inputs ds [] h
        ]

-- Every key stands in `ds` with an empty list: what the first loop leaves.
abbrev Prepared : List String → Dict (List String) → Type 0
Prepared ks ds = All (λ k. get k ds ≡ some []) ks

visited-Prepared :
    (id : String) (node : NodeDefinition) (ks : List String) (ds : Dict (List String))
    → get id ds ≡ some []
    → has id ks ≡ false
    → Prepared ks ds
    → Prepared ks (visited id node ds)
unfolding has
visited-Prepared id node [] ds h u p = tt
visited-Prepared id node (k ∷ ks) ds h u (q, p) = (
  ground (arith, get-visited id k node ds h, eq_iff k id, eq_iff id k),
  visited-Prepared id node ks ds h (ground arith) p,
)

get-visit_nodes :
    (j : String) (nodes : Dict NodeDefinition) (ds : Dict (List String))
    → IsUnique (keys nodes)
    → Prepared (keys nodes) ds
    → get j (visit_nodes nodes ds)
      ≡ elim (get j nodes) [ none ↦ get j ds | some d ↦ some (sources d) ]
unfolding visit_nodes get
get-visit_nodes j [] ds u p = refl
get-visit_nodes j ((id, node) ∷ nodes) ds (fresh, u) (h, p) = ground (
  arith,
  eq_iff id j,
  get-visited id j node ds h,
  get-visit_nodes j nodes (visited id node ds) u
      (visited-Prepared id node (keys nodes) ds h fresh p),
  get-eq-none_of_has id nodes fresh,
)

get-no_dependencies :
    (j : String) (nodes : Dict NodeDefinition) (ds : Dict (List String))
    → get j (no_dependencies nodes ds) ≡ (if has j (keys nodes) then some [] else get j ds)
unfolding no_dependencies has
get-no_dependencies j [] ds = refl
get-no_dependencies j ((id, node) ∷ nodes) ds =
    ground (arith, eq_iff id j, get-set id j [] ds, get-no_dependencies j nodes (set id [] ds))

-- For a workflow with distinct node ids, the graph that the two loops build has an entry for exactly
-- the workflow's nodes, and the entry is the list of the distinct sources of the node's inputs.
pub get-build_dependency_graph :
    (nodes : Dict NodeDefinition) (j : String)
    → IsUnique (keys nodes)
    → get j (build_dependency_graph nodes) ≡ Option.map sources (get j nodes)
unfolding build_dependency_graph get
get-build_dependency_graph nodes j u =
    let prepared : Prepared (keys nodes) (no_dependencies nodes []) =
      All-of_has (λ k. get k (no_dependencies nodes []) ≡ some []) (keys nodes)
        (λ k h. ground (arith, get-no_dependencies k nodes [])) in
    let visits = get-visit_nodes j nodes (no_dependencies nodes []) u prepared in
    elim (Option-cases (get j nodes)) [
      | inl e ↦ ground (arith, visits, get-no_dependencies j nodes [], has-keys_of_none j nodes e)
      | inr (d, e) ↦ ground (arith, visits)
    ]

-- Some input takes its value from node `s`.
abbrev pub FedBy : String → Dict NodeInputDef → Type 0
FedBy s [] = ⊥
FedBy s ((_, input) ∷ inputs) = (input_source input ≡ some s) ⊎ FedBy s inputs

has-add_source :
    (s : String) (input : NodeInputDef) (deps : List String)
    → (has s (add_source input deps) ≡ true) ↔ ((has s deps ≡ true) ⊎ (input_source input ≡ some s))
has-add_source s input deps = elim (Option-cases (input_source input)) [
  | inl e ↦ ground arith
  | inr (x, e) ↦ ground (arith, has-add x s deps, eq_iff x s)
]

has-sources_from_iff :
    (s : String) (deps : List String) (inputs : Dict NodeInputDef)
    → (has s (sources_from deps inputs) ≡ true) ↔ ((has s deps ≡ true) ⊎ FedBy s inputs)
unfolding sources_from
has-sources_from_iff s deps [] = ground arith
has-sources_from_iff s deps ((n, input) ∷ inputs) =
    let (to, from) = has-sources_from_iff s (add_source input deps) inputs in
    let (to', from') = has-add_source s input deps in
    (
      λ h. elim (to h) [
        | inl a ↦ elim (to' a) [ inl b ↦ inl b | inr b ↦ inr (inl b) ]
        | inr b ↦ inr (inr b)
      ],
      λ h. elim h [
        | inl a ↦ from (inl (from' (inl a)))
        | inr f ↦ elim f [ inl a ↦ from (inl (from' (inr a))) | inr b ↦ from (inr b) ]
      ],
    )

add_source-IsUnique :
    (input : NodeInputDef) (deps : List String) → IsUnique deps → IsUnique (add_source input deps)
add_source-IsUnique input deps u =
    elim (input_source input) as (λ o. IsUnique (elim o [ none ↦ deps | some s ↦ add s deps ])) [
      | none ↦ u
      | some x ↦ IsUnique-add x deps u
    ]

sources_from-IsUnique :
    (deps : List String) (inputs : Dict NodeInputDef)
    → IsUnique deps
    → IsUnique (sources_from deps inputs)
unfolding sources_from
sources_from-IsUnique deps [] u = u
sources_from-IsUnique deps ((n, input) ∷ inputs) u =
    sources_from-IsUnique (add_source input deps) inputs (add_source-IsUnique input deps u)

-- A node's dependencies are exactly the nodes that its inputs name as sources, each listed once.
pub sources_lem :
    (node : NodeDefinition) (inputs : Dict NodeInputDef)
    → node.inputs ≡ some inputs
    → IsUnique (sources node) × ((s : String) → (has s (sources node) ≡ true) ↔ FedBy s inputs)
unfolding sources has
sources_lem node inputs e = (
  rw e (sources_from-IsUnique [] inputs tt),
  λ s.
      let (to, from) = has-sources_from_iff s [] inputs in
      rw e (λ h. elim (to h) [ inl a ↦ cc | inr b ↦ b ], λ h. from (inr h)),
)
