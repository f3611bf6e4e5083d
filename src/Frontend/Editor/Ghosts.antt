-- ===== src/Frontend/Editor/Ghosts.antt =====
-- Which edges are left when a node's handles have changed.
use supallm.Common.{
  String, Bool, true, false, List, [], ◌∷◌, ◌++◌, ◌≡◌, refl, ap, ◌∙◌, ◌==◌, ◌&&◌, ◌||◌, not, map,
  filter, has, IsUnique, All, All-zip, arith, eq_iff, has-append, eq_refl, Option, none, some,
  every, if◌then◌else◌, Bool-cases, inl, inr,
}
use supallm.Common.Chars.{Chars}
use supallm.Tools.Postgres.{same_name}
use supallm.Frontend.Editor.{
  Edge, EdgeStore, Handle, NodeHandles, has_handle, is_ghost_source, is_ghost_target,
  delete_ghost_edges,
}

abbrev pub edge_ids : List Edge → List String
edge_ids es = map (λ e. e.id) es

filter-filter :
    (p q : Edge → Bool) (es : List Edge) → filter p (filter q es) ≡ filter (λ e. q e && p e) es
filter-filter p q [] = refl
filter-filter p q (e ∷ es) = elim (Bool-cases (q e)) [
  | inl k ↦ rw (k, filter-filter p q es) refl
  | inr k ↦ rw (k, filter-filter p q es) refl
]

filter_same :
    (p q : Edge → Bool) (es : List Edge) → All (λ e. p e ≡ q e) es → filter p es ≡ filter q es
filter_same p q [] h = refl
filter_same p q (e ∷ es) (h, k) = rw (h, filter_same p q es k) refl

ids-filter :
    (p : Edge → Bool) (x : String) (es : List Edge)
    → has x (edge_ids es) ≡ false
    → has x (edge_ids (filter p es)) ≡ false
unfolding has
ids-filter p x [] h = refl
ids-filter p x (e ∷ es) h = elim (Bool-cases (p e)) [
  | inl k ↦ rw k (ground (arith, ids-filter p x es (ground arith)))
  | inr k ↦ rw k (ids-filter p x es (ground arith))
]

others :
    (x : String) (es : List Edge) → has x (edge_ids es) ≡ false → All (λ e. (x == e.id) ≡ false) es
unfolding has
others x [] h = tt
others x (e ∷ es) h = (ground (arith, eq_iff e.id x, eq_iff x e.id), others x es (ground arith))

has-ids_cons :
    (p : Edge → Bool) (x : String) (e : Edge) (es : List Edge)
    → has x (edge_ids (filter p (e ∷ es))) ≡ ((p e && e.id == x) || has x (edge_ids (filter p es)))
unfolding has
has-ids_cons p x e es = elim (Bool-cases (p e)) [ inl k ↦ rw k refl | inr k ↦ rw k refl ]

-- Where ids are unique, the id of an edge is among those of a selection if the edge is selected.
pub has-filter_ids :
    (p : Edge → Bool) (es : List Edge)
    → IsUnique (edge_ids es)
    → All (λ e. has e.id (edge_ids (filter p es)) ≡ p e) es
has-filter_ids p [] u = tt
has-filter_ids p (e ∷ es) (fresh, u) = (
  has-ids_cons p e.id e es ∙ ground (arith, ids-filter p e.id es fresh, eq_refl e.id),
  All-zip (λ x a b. has-ids_cons p x.id e es ∙ ground (arith, a, b)) es (others e.id es fresh)
      (has-filter_ids p es u),
)

edge_ids-append : (xs ys : List Edge) → edge_ids (xs ++ ys) ≡ edge_ids xs ++ edge_ids ys
edge_ids-append [] ys = refl
edge_ids-append (e ∷ xs) ys = ap (λ l. e.id ∷ l) (edge_ids-append xs ys)

-- One of the handles has this id.
unfoldable pub among : Option Chars → List Handle → Bool
among none hs = false
among (some id) hs = not (every (λ h. not (same_name h.id id)) hs)

-- If the edge's source is the node, its source handle is an input, a configuration or a capability of the
-- node; if its target is, its target handle is an output or a capability.
unfoldable pub is_attached : String → NodeHandles → Edge → Bool
unfolding among
is_attached node_id hs e =
    (if e.source == node_id
      then among e.source_handle (hs.inputs ++ hs.configs ++ hs.capabilities)
      else true)
    && (if e.target == node_id then among e.target_handle (hs.outputs ++ hs.capabilities) else true)

has_handle-among : (id : Option Chars) (hs : List Handle) → has_handle id hs ≡ among id hs
unfolding has_handle among
has_handle-among none hs = refl
has_handle-among (some id) [] = refl
has_handle-among (some id) (h ∷ hs) = ground (arith, has_handle-among (some id) hs)

among-append :
    (id : Option Chars) (xs ys : List Handle) → among id (xs ++ ys) ≡ (among id xs || among id ys)
unfolding among
among-append none xs ys = refl
among-append (some id) [] ys = refl
among-append (some id) (h ∷ xs) ys = ground (arith, among-append (some id) xs ys)

source-among :
    (hs : NodeHandles) (e : Edge)
    → among e.source_handle (hs.inputs ++ hs.configs ++ hs.capabilities)
      ≡ not (is_ghost_source hs e)
unfolding is_ghost_source
source-among hs e =
    rw
      (
        among-append e.source_handle (hs.inputs ++ hs.configs) hs.capabilities,
        among-append e.source_handle hs.inputs hs.configs,
        has_handle-among e.source_handle hs.inputs,
        has_handle-among e.source_handle hs.configs,
        has_handle-among e.source_handle hs.capabilities,
      )
      (cases (among e.source_handle hs.inputs) (among e.source_handle hs.configs)
        (among e.source_handle hs.capabilities))
  where
    cases : (a b c : Bool) → ((a || b) || c) ≡ not (not a && not b && not c)
    cases a b c = ground arith

target-among :
    (hs : NodeHandles) (e : Edge)
    → among e.target_handle (hs.outputs ++ hs.capabilities) ≡ not (is_ghost_target hs e)
unfolding is_ghost_target
target-among hs e = ground (
  arith,
  among-append e.target_handle hs.outputs hs.capabilities,
  has_handle-among e.target_handle hs.outputs,
  has_handle-among e.target_handle hs.capabilities,
)

-- An edge is attached if it is a ghost at neither end.
pub attached-ghost :
    (node_id : String) (hs : NodeHandles) (e : Edge)
    → is_attached node_id hs e ≡ (
        (if e.source == node_id then not (is_ghost_source hs e) else true)
        && (if e.target == node_id then not (is_ghost_target hs e) else true))
unfolding is_attached
attached-ghost node_id hs e = rw (source-among hs e, target-among hs e) refl

selected :
    (store : EdgeStore) (node_id : String) (q p : Edge → Bool) (es : List Edge)
    → filter p (filter q (store.connected_edges node_id es))
      ≡ filter (λ e. ((e.source == node_id || e.target == node_id) && q e) && p e) es
selected store node_id q p es =
    ap (λ l. filter p (filter q l)) (store.connected node_id es)
    ∙ ap (filter p) (filter-filter q (λ e. e.source == node_id || e.target == node_id) es)
    ∙ filter-filter p (λ e. (e.source == node_id || e.target == node_id) && q e) es

attached_unless :
    (node_id : String) (hs : NodeHandles) (e : Edge) (xs ys : List Edge)
    → has e.id (edge_ids xs) ≡ (
        ((e.source == node_id || e.target == node_id) && e.source == node_id)
        && is_ghost_source hs e)
    → has e.id (edge_ids ys) ≡ (
        ((e.source == node_id || e.target == node_id) && e.target == node_id)
        && is_ghost_target hs e)
    → not (has e.id (edge_ids (xs ++ ys))) ≡ is_attached node_id hs e
attached_unless node_id hs e xs ys h k =
    rw
      (
        attached-ghost node_id hs e,
        edge_ids-append xs ys,
        has-append e.id (edge_ids xs) (edge_ids ys),
        h,
        k,
      )
      (cases (e.source == node_id) (e.target == node_id) (is_ghost_source hs e)
        (is_ghost_target hs e))
  where
    cases :
        (s t g k : Bool)
        → not (((s || t) && s) && g || ((s || t) && t) && k)
          ≡ ((if s then not g else true) && (if t then not k else true))
    cases s t g k = ground arith

-- Where the edges have different ids: after the handles of a node have changed, exactly those edges are
-- left, in their order, whose source handle, if their source is this node, is among its inputs,
-- configurations and capabilities, and whose target handle, if their target is this node, is among its
-- outputs and capabilities.
pub delete_ghost_edges_lem :
    (store : EdgeStore) (node_id : String) (hs : NodeHandles) (es : List Edge)
    → IsUnique (edge_ids es)
    → delete_ghost_edges store node_id hs es ≡ filter (is_attached node_id hs) es
unfolding delete_ghost_edges
delete_ghost_edges_lem store node_id hs es u =
    let touches : Edge → Bool = λ e. e.source == node_id || e.target == node_id in
    let out : Edge → Bool = λ e. (touches e && e.source == node_id) && is_ghost_source hs e in
    let into : Edge → Bool = λ e. (touches e && e.target == node_id) && is_ghost_target hs e in
    let a = selected store node_id (λ e. e.source == node_id) (is_ghost_source hs) es in
    let b = selected store node_id (λ e. e.target == node_id) (is_ghost_target hs) es in
    store.deleted _ es
    ∙ ap
        (λ l.
          filter
            (λ e. not (
              has e.id (
                edge_ids (
                  l
                  ++ filter (is_ghost_target hs)
                      (filter (λ e. e.target == node_id) (store.connected_edges node_id es))))))
            es)
        a
    ∙ ap (λ l. filter (λ e. not (has e.id (edge_ids (filter out es ++ l)))) es) b
    ∙ filter_same _ (is_attached node_id hs) es (
        All-zip (λ e h k. attached_unless node_id hs e _ _ h k) es (has-filter_ids out es u)
          (has-filter_ids into es u))
