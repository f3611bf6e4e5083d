-- ===== src/Workflow/Executor/Loop.antt =====
-- The proof rule for the loop of `executeWorkflow`, and its termination.
use supallm.Common.{
  ℕ, zero, suc, ◌<◌, String, true, false, Option, none, some, List, [], ◌∷◌, Dict, ok, error, ◌≡◌,
  ◌≢◌, arith, Bool-cases, Result-cases, List-cases, inl, inr,
}
use mathlib.Core.Path.{subst}
use supallm.Nodes.{NodeRunner}
use supallm.Context.{ExecutionContext, WorkflowDefinition, find_ready_nodes}
use supallm.Context.Service.{ContextService}
use supallm.Workflow.Events.{WorkflowError, circular}
use supallm.Workflow.Executor.{Run, Outcome, is_unfinished, blocked_nodes}
use supallm.Workflow.Executor.Execution.{round, rounds, final_output}

hand_on :
    {A B : Type 0} (Q : A → B → Type 0) {a c : A} {b d : B}
    → Q a b
    → ◌≡◌ {A = Option (A × B)} (some (a, b)) (some (c, d))
    → Q c d
hand_on {A} {B} Q q h =
    subst (λ (o : Option (A × B)). elim o as (λ x. Type 0) [ none ↦ Unit {0} | some t ↦ Q t.0 t.1 ])
      h q

module _ (run_node : NodeRunner) (svc : ContextService) (deps : Dict (List String))
    (definition : WorkflowDefinition) where
  -- `P` holds whenever the loop's test is made, and `Q` of what the loop hands on.
  pub record LoopRule (P : Run svc.Store → Type 0) (Q : Outcome → Run svc.Store → Type 0)
      : Type 0 where
    pub finished :
        (r : Run svc.Store)
        → P r
        → is_unfinished r.context ≡ false
        → Q (final_output run_node svc definition r) r
    pub stuck :
        (r : Run svc.Store)
        → P r
        → is_unfinished r.context ≡ true
        → find_ready_nodes r.context deps ≡ []
        → Q (error (circular (blocked_nodes r.context deps))) r
    pub failed :
        (r : Run svc.Store) (ready : List String) (e : WorkflowError)
        → P r
        → find_ready_nodes r.context deps ≡ ready
        → (round run_node svc definition ready r).0 ≡ error e
        → Q (error e) (round run_node svc definition ready r).1
    pub kept :
        (r : Run svc.Store) (ready : List String)
        → P r
        → ready ≢ []
        → find_ready_nodes r.context deps ≡ ready
        → (round run_node svc definition ready r).0 ≡ ok tt
        → P (round run_node svc definition ready r).1

  pub rounds_rule :
      (P : Run svc.Store → Type 0) (Q : Outcome → Run svc.Store → Type 0)
      → LoopRule P Q
      → (fuel : ℕ) (r : Run svc.Store) (outcome : Outcome) (r' : Run svc.Store) → P r
      → rounds run_node svc fuel deps definition r ≡ some (outcome, r')
      → Q outcome r'
  unfolding rounds
  rounds_rule P Q rule zero r outcome r' p h = cc
  rounds_rule P Q rule (suc fuel) r outcome r' p h = elim (Bool-cases (is_unfinished r.context)) [
    | inr e ↦ hand_on Q (rule.finished r p e) (rw (e, rounds) at h)
    | inl e ↦ elim (List-cases (find_ready_nodes r.context deps)) [
      | inl none_ready ↦ hand_on Q (rule.stuck r p e none_ready) (rw (e, none_ready, rounds) at h)
      | inr (id, ids, some_ready) ↦
          elim (Result-cases (round run_node svc definition (id ∷ ids) r).0) [
            | inr (x, bad) ↦
                hand_on Q (rule.failed r (id ∷ ids) x p some_ready bad)
                  (rw (e, some_ready, bad, rounds) at h)
            | inl (u, good) ↦
                rounds_rule P Q rule fuel (round run_node svc definition (id ∷ ids) r).1 outcome r'
                  (rule.kept r (id ∷ ids) p (λ q. cc) some_ready good)
                  (rw (e, some_ready, good, rounds) at h)
          ]
    ]
  ]

  -- The loop needs no more rounds than a measure has units, if each round lowers it.
  pub rounds_total :
      (measure : ExecutionContext → ℕ)
      → ((r : Run svc.Store) (ready : List String)
          → ready ≢ []
          → find_ready_nodes r.context deps ≡ ready
          → (round run_node svc definition ready r).0 ≡ ok tt
          → measure (round run_node svc definition ready r).1.context < measure r.context)
      → (fuel : ℕ) (r : Run svc.Store) → measure r.context < fuel
      → (end : Outcome × Run svc.Store) × (rounds run_node svc fuel deps definition r ≡ some end)
  unfolding rounds
  rounds_total measure falls zero r m = elim m [ ]
  rounds_total measure falls (suc fuel) r m = elim (Bool-cases (is_unfinished r.context)) [
    | inr e ↦ ((final_output run_node svc definition r, r), rw (e, rounds))
    | inl e ↦ elim (List-cases (find_ready_nodes r.context deps)) [
      | inl none_ready ↦
          ((error (circular (blocked_nodes r.context deps)), r), rw (e, none_ready, rounds))
      | inr (id, ids, some_ready) ↦
          elim (Result-cases (round run_node svc definition (id ∷ ids) r).0) [
            | inr (x, bad) ↦ (
              (error x, (round run_node svc definition (id ∷ ids) r).1),
              rw (e, some_ready, bad, rounds),
            )
            | inl (u, good) ↦
                let (end, done) =
                  rounds_total measure falls fuel (round run_node svc definition (id ∷ ids) r).1
                    (omega (arith, falls r (id ∷ ids) (λ q. cc) some_ready good)) in
                (end, rw (e, some_ready, good, rounds) done)
          ]
    ]
  ]
