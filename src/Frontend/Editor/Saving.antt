-- ===== src/Frontend/Editor/Saving.antt =====
-- When the flow editor saves: frontend/src/hooks/use-debounce.ts, and `onSave`, the effect on the nodes and
-- edges and the handlers of changes in frontend/src/app/builder/chat-flow/[id]/page.tsx. An editor keeps the
-- nodes and edges that it was last rendered with, which its handlers see, and those that it will be rendered
-- with next.
pub mod Current
pub mod Finally
use supallm.Common.{
  ℕ, String, Bool, true, false, Option, none, some, List, [], ◌∷◌, ◌++◌, ◌≡◌, refl, sym, ap, ◌∙◌,
  ◌≤◌, leb, ◌-◌, if◌then◌else◌, arith, Bool-cases, inl, inr,
}

-- What `setTimeout` has been given, with the milliseconds that are left, until it fires or is cleared.
abbrev pub Timeout : Type 0 → Type 0
Timeout A = Option (ℕ × A)

-- What `useDebounce` returns; the timeout that is set is cleared.
unfoldable pub debounce : {A : Type 0} → A → ℕ → Timeout A → Timeout A
debounce fn delay_ms timeout_ref = some (delay_ms, fn)

-- Time goes by: the timeout is left, or has fired.
unfoldable pub elapse : {A : Type 0} → ℕ → Timeout A → Timeout A × List A
elapse ms none = (none, [])
elapse ms (some (left, fn)) = if leb left ms then (none, fn ∷ []) else (some (left - ms, fn), [])

pub record FlowPatch (N E : Type 0) : Type 0 where
  pub nodes : List N
  pub edges : List E
  pub name : String

-- `saves` are the calls of `saveFlow`, the newest first; `is_stale` is set where a setter has been given
-- another array than the rendered one.
pub record Editor (N E : Type 0) : Type 0 where
  pub nodes : List N
  pub edges : List E
  pub next_nodes : List N
  pub next_edges : List E
  pub is_stale : Bool
  pub name : String
  pub timeout : Timeout (FlowPatch N E)
  pub saves : List (FlowPatch N E)

abbrev pub given_or : {A : Type 0} → Option A → A → A
given_or none a = a
given_or (some b) a = b

unfoldable pub on_save :
    {N E : Type 0} → Option (List E) → Option (List N) → Editor N E → Editor N E
unfolding debounce
on_save override_edges override_nodes s = record s {
  timeout =
      debounce
        (record {
          nodes = given_or override_nodes s.nodes;
          edges = given_or override_edges s.edges;
          name = s.name;
        })
        600 s.timeout;
}

-- A setter: none is an update that gives the array back that it was given.
unfoldable pub set_nodes : {N E : Type 0} → (List N → Option (List N)) → Editor N E → Editor N E
set_nodes update s = elim (update s.next_nodes) [
  | none ↦ s
  | some nodes ↦ record s { next_nodes = nodes; is_stale = true }
]

unfoldable pub set_edges : {N E : Type 0} → (List E → Option (List E)) → Editor N E → Editor N E
set_edges update s = elim (update s.next_edges) [
  | none ↦ s
  | some edges ↦ record s { next_edges = edges; is_stale = true }
]

pub data Action (N E : Type 0) : Type 0 where
  node_change : (List N → Option (List N)) → Action N E
  edge_change : (List E → Option (List E)) → Action N E
  connect : (List E → Option (List E)) → Action N E
  render : Action N E
  wait : ℕ → Action N E

-- The effect on the nodes and edges, after they were rendered.
unfoldable pub save_rendered : {N E : Type 0} → Editor N E → Editor N E
unfolding on_save
save_rendered s = on_save (some s.edges) (some s.nodes) s

unfoldable pub rendered : {N E : Type 0} → Editor N E → Editor N E
unfolding save_rendered
rendered s =
    let next = record s { nodes = s.next_nodes; edges = s.next_edges; is_stale = false } in
    if s.is_stale then save_rendered next else s

unfoldable pub waited : {N E : Type 0} → ℕ → Editor N E → Editor N E
unfolding elapse
waited ms s =
    let (timeout, fired) = elapse ms s.timeout in
    record s { timeout = timeout; saves = fired ++ s.saves }

unfoldable pub step : {N E : Type 0} → Action N E → Editor N E → Editor N E
unfolding set_nodes set_edges on_save rendered waited
step (node_change update) s = on_save none none (set_nodes update s)
step (edge_change update) s = on_save none none (set_edges update s)
step (connect update) s = set_edges update s
step render s = rendered s
step (wait ms) s = waited ms s

-- The editor of a flow, with the effect's first run.
unfoldable pub opened : {N E : Type 0} → List N → List E → String → Editor N E
unfolding save_rendered
opened nodes edges name = save_rendered (record {
  nodes = nodes;
  edges = edges;
  next_nodes = nodes;
  next_edges = edges;
  is_stale = false;
  name = name;
  timeout = none;
  saves = [];
})

unfoldable pub run : {N E : Type 0} → List (Action N E) → Editor N E → Editor N E
unfolding step
run [] s = s
run (a ∷ actions) s = run actions (step a s)
