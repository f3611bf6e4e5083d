-- ===== src/Frontend/Editor/Saving/Current.antt =====
-- What the editor has noted is what it shows, or it will be rendered again.
use supallm.Common.{
  ℕ, String, false, Option, none, some, List, [], ◌∷◌, ◌++◌, ◌≡◌, refl, ◌∙◌, ◌≤◌, leb, arith,
  Bool-cases, Option-cases, inl, inr,
}
use supallm.Frontend.Editor.Saving.{
  Timeout, FlowPatch, Editor, on_save, set_nodes, set_edges, Action, node_change, edge_change,
  connect, render, wait, save_rendered, rendered, waited, step, opened, run, elapse, debounce,
}

abbrev pub newest : {A : Type 0} → List A → Option A
newest [] = none
newest (a ∷ older) = some a

-- What will have been saved last, if nothing more happens.
abbrev pub noted : {A : Type 0} → Timeout A → List A → Option A
noted none saves = newest saves
noted (some (left, fn)) saves = some fn

abbrev pub LeftAtMost : {A : Type 0} → ℕ → Timeout A → Type 0
LeftAtMost ms none = Unit
LeftAtMost ms (some (left, fn)) = left ≤ ms

abbrev pub rendered_patch : {N E : Type 0} → Editor N E → FlowPatch N E
rendered_patch s = record { nodes = s.nodes; edges = s.edges; name = s.name }

-- An editor that shows what it holds has noted it, or will be rendered again; and it saves in time.
unfoldable pub IsCurrent : {N E : Type 0} → Editor N E → Type 0
IsCurrent s =
    LeftAtMost 600 s.timeout
    × (s.is_stale ≡ false
        → (noted s.timeout s.saves ≡ some (rendered_patch s))
          × (s.next_nodes ≡ s.nodes)
          × (s.next_edges ≡ s.edges))

elapse-noted :
    {A : Type 0} (ms : ℕ) (t : Timeout A) (saves : List A)
    → noted (elapse ms t).0 ((elapse ms t).1 ++ saves) ≡ noted t saves
unfolding elapse
elapse-noted ms none saves = refl
elapse-noted ms (some (left, fn)) saves = elim (Bool-cases (leb left ms)) [
  | inl e ↦ rw e refl
  | inr e ↦ rw e refl
]

elapse-left :
    {A : Type 0} (ms : ℕ) (t : Timeout A) → LeftAtMost 600 t → LeftAtMost 600 (elapse ms t).0
unfolding elapse
elapse-left ms none h = tt
elapse-left ms (some (left, fn)) h = elim (Bool-cases (leb left ms)) [
  | inl e ↦ rw e tt
  | inr e ↦ rw e (omega arith)
]

-- Within 600 ms the timeout has fired, and what was noted is what was saved last.
pub elapse-fires :
    {A : Type 0} (ms : ℕ) (t : Timeout A) (saves : List A)
    → LeftAtMost 600 t
    → 600 ≤ ms
    → ((elapse ms t).0 ≡ none) × (newest ((elapse ms t).1 ++ saves) ≡ noted t saves)
unfolding elapse
elapse-fires ms none saves h k = (refl, refl)
elapse-fires ms (some (left, fn)) saves h k = elim (Bool-cases (leb left ms)) [
  | inl e ↦ rw e (refl, refl)
  | inr e ↦ absurd (ground (arith, e))
]

set_nodes-IsCurrent :
    {N E : Type 0} (update : List N → Option (List N)) (s : Editor N E)
    → IsCurrent s
    → IsCurrent (on_save none none (set_nodes update s))
unfolding IsCurrent set_nodes on_save debounce
set_nodes-IsCurrent update s (left, kept) = elim (Option-cases (update s.next_nodes)) [
  | inl k ↦ rw (set_nodes, k) (omega arith, λ e. (refl, (kept e).1, (kept e).2))
  | inr (nodes, k) ↦ rw (set_nodes, k) (omega arith, λ e. absurd (ground (arith, e)))
]

set_edges-IsCurrent :
    {N E : Type 0} (update : List E → Option (List E)) (s : Editor N E)
    → IsCurrent s
    → IsCurrent (set_edges update s)
unfolding IsCurrent set_edges
set_edges-IsCurrent update s (left, kept) = elim (Option-cases (update s.next_edges)) [
  | inl k ↦ rw (set_edges, k) (left, kept)
  | inr (edges, k) ↦ rw (set_edges, k) (left, λ e. absurd (ground (arith, e)))
]

on_save-IsCurrent : {N E : Type 0} (s : Editor N E) → IsCurrent s → IsCurrent (on_save none none s)
unfolding IsCurrent on_save debounce
on_save-IsCurrent s (left, kept) = (omega arith, λ e. (refl, (kept e).1, (kept e).2))

pub rendered-IsCurrent : {N E : Type 0} (s : Editor N E) → IsCurrent s → IsCurrent (rendered s)
unfolding IsCurrent rendered save_rendered on_save debounce
rendered-IsCurrent s (left, kept) = elim (Bool-cases s.is_stale) [
  | inl e ↦ rw e (omega arith, λ k. (refl, refl, refl))
  | inr e ↦ rw e (left, λ k. kept e)
]

waited-IsCurrent : {N E : Type 0} (ms : ℕ) (s : Editor N E) → IsCurrent s → IsCurrent (waited ms s)
unfolding IsCurrent waited
waited-IsCurrent ms s (left, kept) = (
  elapse-left ms s.timeout left,
  λ e. (elapse-noted ms s.timeout s.saves ∙ (kept e).0, (kept e).1, (kept e).2),
)

step-IsCurrent :
    {N E : Type 0} (a : Action N E) (s : Editor N E) → IsCurrent s → IsCurrent (step a s)
unfolding step
step-IsCurrent (node_change update) s h = set_nodes-IsCurrent update s h
step-IsCurrent (edge_change update) s h =
    on_save-IsCurrent (set_edges update s) (set_edges-IsCurrent update s h)
step-IsCurrent (connect update) s h = set_edges-IsCurrent update s h
step-IsCurrent render s h = rendered-IsCurrent s h
step-IsCurrent (wait ms) s h = waited-IsCurrent ms s h

pub run-IsCurrent :
    {N E : Type 0} (actions : List (Action N E)) (s : Editor N E)
    → IsCurrent s
    → IsCurrent (run actions s)
unfolding run
run-IsCurrent [] s h = h
run-IsCurrent (a ∷ actions) s h = run-IsCurrent actions (step a s) (step-IsCurrent a s h)

pub opened-IsCurrent :
    {N E : Type 0} (nodes : List N) (edges : List E) (name : String)
    → IsCurrent (opened nodes edges name)
unfolding IsCurrent opened save_rendered on_save debounce
opened-IsCurrent nodes edges name = (omega arith, λ e. (refl, refl, refl))
