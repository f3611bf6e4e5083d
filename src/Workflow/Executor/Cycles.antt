-- ===== src/Workflow/Executor/Cycles.antt =====
-- Circular and well-founded dependency graphs.
use supallm.Common.{
  Result-cases, ℕ, zero, suc, ◌<◌, String, true, false, Bool, Option, some, List, [], ◌∷◌, Dict,
  get, ok, error, ◌≡◌, ◌≢◌, refl, arith, Bool-cases, inl, inr, length, filter, every, has, not,
  ◌||◌, IsUnique, ◌∙◌, ap, eq_iff,
}
use supallm.Values.{Fields}
use supallm.Nodes.{NodeRunner}
use supallm.Context.{
  ExecutionContext, WorkflowDefinition, find_ready_nodes, remaining_nodes, is_ready,
}
use supallm.Context.Service.{ContextService}
use supallm.Workflow.Graph.{build_dependency_graph}
use supallm.Workflow.Events.{WorkflowError, Blocked, circular}
use supallm.Workflow.Executor.{Run, Outcome}
use supallm.Workflow.Executor.Execution.{round, execute_workflow}
use supallm.Workflow.Executor.Invariant.{IsValid, round-IsValid}
use supallm.Workflow.Executor.Marking.{find_ready_nodes-facts}
use supallm.Workflow.Executor.Loop.{LoopRule, rounds_rule}
use supallm.Workflow.Executor.Outcomes.{
  execute_workflow-Tells, finished-AllCompleted, unready-waits, stuck-waits,
}
use supallm.Workflow.Executor.Rounds.{round-IsGood, round-has, round-all_nodes}

-- A context that nothing has run in.
abbrev pub IsFresh : ExecutionContext → Type 0
IsFresh c = IsUnique c.all_nodes × (c.completed_nodes ≡ [])

-- Nodes of which each depends on one of them.
pub record IsKnot (deps : Dict (List String)) (knot : List String) : Type 0 where
  pub tied :
      (id : String)
      → has id knot ≡ true
      → (ds : List String) × (get id deps ≡ some ds)
        × ((d : String) × (has d ds ≡ true) × (has d knot ≡ true))

-- Every dependency is a node of the workflow, and is ranked below the node that depends on it.
pub record IsRanked (deps : Dict (List String)) (all : List String) (rank : String → ℕ)
    : Type 0 where
  pub known :
      (id d : String) (ds : List String)
      → get id deps ≡ some ds
      → has d ds ≡ true
      → has d all ≡ true
  pub below :
      (id d : String) (ds : List String)
      → get id deps ≡ some ds
      → has d ds ≡ true
      → rank d < rank id

every-has :
    (p : String → Bool) (xs : List String) (x : String)
    → every p xs ≡ true
    → has x xs ≡ true
    → p x ≡ true
unfolding has
every-has p [] x h k = ground arith
every-has p (y ∷ xs) x h k = ground (arith, every-has p xs x, eq_iff y x)

length-filter_all : (xs : List String) → length (filter (λ id. not (has id [])) xs) ≡ length xs
unfolding has
length-filter_all [] = refl
length-filter_all (x ∷ xs) = ap suc (length-filter_all xs)

module _ (deps : Dict (List String)) where
  pub IsFresh-IsValid : (c : ExecutionContext) → IsFresh c → IsValid deps c
  unfolding remaining_nodes has
  IsFresh-IsValid c (unique, none_yet) = record {
    unique = unique;
    counted = rw none_yet (omega (arith, length-filter_all c.all_nodes));
    within = λ id h. cc (ap (has id) none_yet);
    executed = λ id h. absurd (cc (ap (has id) none_yet));
    closed = λ id h. cc (ap (has id) none_yet);
  }

  pub is_ready-dependency :
      (c : ExecutionContext) (id d : String) (ds : List String)
      → is_ready c deps id ≡ true
      → get id deps ≡ some ds
      → has d ds ≡ true
      → has d c.completed_nodes ≡ true
  unfolding is_ready
  is_ready-dependency c id d ds h e k =
      every-has (λ x. has x c.completed_nodes) ds d (rw (e, is_ready) at h) k

  module _ (run_node : NodeRunner) (svc : ContextService) (definition : WorkflowDefinition)
      (knot all : List String) (is_knot : IsKnot deps knot) where
    abbrev Untouched : Run svc.Store → Type 0
    Untouched r =
        IsValid deps r.context
        × ((id : String) → has id knot ≡ true → has id r.context.completed_nodes ≡ false)
        × (r.context.all_nodes ≡ all)

    round-Untouched :
        (r : Run svc.Store) (ready : List String)
        → Untouched r
        → find_ready_nodes r.context deps ≡ ready
        → (round run_node svc definition ready r).0 ≡ ok tt
        → Untouched (round run_node svc definition ready r).1
    round-Untouched r ready (v, out, same_all) same good = (
      round-IsValid deps svc run_node definition ready r (λ id h. rw same h) v,
      λ id tied. elim (Bool-cases (has id ready)) [
        | inr unready ↦ rw (now id, unready) (out id tied)
        | inl chosen ↦ absurd (waits id tied chosen)
      ],
      round-all_nodes run_node svc definition ready r ∙ same_all,
    )
      where
        now :
            (j : String)
            → has j (round run_node svc definition ready r).1.context.completed_nodes
              ≡ (has j ready || has j r.context.completed_nodes)
        now =
            round-has run_node svc definition ready r
              (round-IsGood run_node svc definition ready r good)

        waits : (j : String) → has j knot ≡ true → has j ready ≡ true → ⊥
        waits j tied chosen =
            let (ds, found, (d, listed, among)) = is_knot.tied j tied in
            let (_, _, is_r) = find_ready_nodes-facts deps r.context j (rw same chosen) in
            let completed = is_ready-dependency r.context j d ds is_r found listed in
            cc (out d among)

    -- What a run says that has not touched the knot.
    abbrev NoResult : Outcome → Run svc.Store → Type 0
    NoResult outcome r =
        (id : String)
        → has id knot ≡ true
        → has id all ≡ true
        → (output : Option Fields) → outcome ≢ ok output

    NoResult-LoopRule : LoopRule run_node svc deps definition Untouched NoResult
    NoResult-LoopRule = record {
      finished = λ r u e id tied known output h.
          cc (u.1 id tied, finished-AllCompleted deps r.context u.0 e id (rw u.2 known));
      stuck = λ r u e n id tied known output h. cc;
      failed = λ r ready x u same bad id tied known output h. cc;
      kept = λ r ready u some_ready same good. round-Untouched r ready u same good;
    }

-- Nodes that depend on one another in a circle, or on themselves, keep a workflow from ever giving a
-- result: from a fresh context the execution ends with an error, whatever the nodes do.
pub execute_workflow_knot :
    (run_node : NodeRunner) (svc : ContextService) (definition : WorkflowDefinition)
    (knot : List String) (id : String) (r : Run svc.Store) (outcome : Outcome) (r' : Run svc.Store)
    → IsKnot (build_dependency_graph definition.nodes) knot
    → has id knot ≡ true
    → has id r.context.all_nodes ≡ true
    → IsFresh r.context
    → execute_workflow run_node svc definition r ≡ some (outcome, r')
    → (e : WorkflowError) × (outcome ≡ error e)
unfolding execute_workflow has
execute_workflow_knot run_node svc definition knot id r outcome r' is_knot tied known fresh h =
    let deps = build_dependency_graph definition.nodes in
    let all = r.context.all_nodes in
    let no_result =
      rounds_rule run_node svc deps definition
        (Untouched deps run_node svc definition knot all is_knot)
        (NoResult deps run_node svc definition knot all is_knot)
        (NoResult-LoopRule deps run_node svc definition knot all is_knot) (suc (length all)) r
        outcome r' (IsFresh-IsValid deps r.context fresh, λ j _. rw fresh.1 refl, refl) h id tied
        known in
    elim (Result-cases outcome) [
      | inl (output, e) ↦ absurd (no_result output e)
      | inr found ↦ found
    ]

module _ (deps : Dict (List String)) (c : ExecutionContext) (rank : String → ℕ)
    (ranked : IsRanked deps c.all_nodes rank) (none_ready : find_ready_nodes c deps ≡ []) where
  -- By induction on a bound for the rank.
  ranked-completed :
      (bound : ℕ) (id : String)
      → rank id < bound
      → has id c.all_nodes ≡ true
      → has id c.completed_nodes ≡ true
  ranked-completed zero id h known = elim h [ ]
  ranked-completed (suc bound) id h known = elim (Bool-cases (has id c.completed_nodes)) [
    | inl e ↦ e
    | inr e ↦
        let (ds, found, (d, listed, open_still)) =
          unready-waits deps c id (stuck-waits deps c id none_ready known e) in
        let lower = ranked.below id d ds found listed in
        let done = ranked-completed bound d (omega arith) (ranked.known id d ds found listed) in cc
  ]

-- The loop keeps the nodes of the workflow.
rounds-all_nodes :
    (run_node : NodeRunner) (svc : ContextService) (deps : Dict (List String))
    (definition : WorkflowDefinition) (all : List String)
    → LoopRule run_node svc deps definition
        (λ r. r.context.all_nodes ≡ all)
        (λ outcome r. r.context.all_nodes ≡ all)
rounds-all_nodes run_node svc deps definition all = record {
  finished = λ r p e. p;
  stuck = λ r p e n. p;
  failed = λ r ready x p same bad. round-all_nodes run_node svc definition ready r ∙ p;
  kept = λ r ready p some_ready same good. round-all_nodes run_node svc definition ready r ∙ p;
}

-- Where the dependencies are nodes of the workflow and none leads back to itself, circular dependencies
-- are never reported, from a fresh context.
pub execute_workflow_ranked :
    (run_node : NodeRunner) (svc : ContextService) (definition : WorkflowDefinition)
    (rank : String → ℕ) (r : Run svc.Store) (outcome : Outcome) (r' : Run svc.Store)
    → IsRanked (build_dependency_graph definition.nodes) r.context.all_nodes rank
    → IsFresh r.context
    → execute_workflow run_node svc definition r ≡ some (outcome, r')
    → (bs : List Blocked) → outcome ≢ error (circular bs)
unfolding execute_workflow
execute_workflow_ranked run_node svc definition rank r outcome r' ranked fresh h bs e =
    let deps = build_dependency_graph definition.nodes in
    let t =
      execute_workflow-Tells run_node svc definition r outcome r'
        (IsFresh-IsValid deps r.context fresh) h in
    let (_, left, none_ready) = t.of_circular bs e in
    let all = r.context.all_nodes in
    let same : r'.context.all_nodes ≡ all =
      rounds_rule run_node svc deps definition (λ s. s.context.all_nodes ≡ all)
        (λ o s. s.context.all_nodes ≡ all) (rounds-all_nodes run_node svc deps definition all)
        (suc (length all)) r outcome r' refl h in
    left (λ id known.
      ranked-completed deps r'.context rank (rw same ranked) none_ready (suc (rank id)) id
        (omega arith) known)
