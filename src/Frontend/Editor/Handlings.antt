-- ===== src/Frontend/Editor/Handlings.antt =====
-- What becomes of the handles of the entrypoint and of the result, and of the edges at them.
use supallm.Common.{
  String, true, false, Option, none, some, List, [], ◌∷◌, ◌++◌, ◌≡◌, refl, ap, ◌∙◌, ◌==◌, has,
  IsUnique, All, arith, Bool-cases, inl, inr,
}
use supallm.Common.Chars.{Chars}
use supallm.Tools.Postgres.{same_name}
use supallm.Frontend.Editor.{
  Edge, EdgeStore, Handle, NodeHandles, has_handle, is_ghost_source, is_ghost_target,
  delete_ghost_edges, before, on_handle_change,
}
use supallm.Frontend.Editor.Ghosts.{
  edge_ids, has-filter_ids, is_attached, attached-ghost, delete_ghost_edges_lem,
}

-- The handles of an entrypoint: all of them are outputs.
abbrev pub outputs_only : List Handle → NodeHandles
outputs_only hs = record { inputs = []; configs = []; capabilities = []; outputs = hs }

before-append :
    (id : Chars) (xs : List Handle) (k : Handle) (ys : List Handle)
    → has_handle (some id) xs ≡ false
    → same_name k.id id ≡ true
    → before id (xs ++ k ∷ ys) ≡ (xs, true)
unfolding before has_handle
before-append id [] k ys h e = rw e refl
before-append id (x ∷ xs) k ys h e = elim (Bool-cases (same_name x.id id)) [
  | inl same ↦ absurd (ground (arith, rw same at h))
  | inr other ↦ rw (other, before-append id xs k ys (rw other at h) e) refl
]

before-none :
    (id : Chars) (hs : List Handle) → has_handle (some id) hs ≡ false → before id hs ≡ (hs, false)
unfolding before has_handle
before-none id [] h = refl
before-none id (x ∷ xs) h = elim (Bool-cases (same_name x.id id)) [
  | inl same ↦ absurd (ground (arith, rw same at h))
  | inr other ↦ rw (other, before-none id xs (rw other at h)) refl
]

on_handle_change-append :
    (h : Handle) (xs : List Handle) (k : Handle) (ys : List Handle)
    → has_handle (some h.id) xs ≡ false
    → same_name k.id h.id ≡ true
    → on_handle_change h (xs ++ k ∷ ys) ≡ xs ++ h ∷ []
unfolding on_handle_change
on_handle_change-append h xs k ys fresh same =
    let e = before-append h.id xs k ys fresh same in
    rw (on_handle_change, ap (λ p. p.1) e, ap (λ p. p.0) e) refl

All-at :
    (P : Edge → Type 0) (xs : List Edge) (e : Edge) (ys : List Edge) → All P (xs ++ e ∷ ys) → P e
All-at P [] e ys (p, h) = p
All-at P (x ∷ xs) e ys (p, h) = All-at P xs e ys h

has_handle-nil : (o : Option Chars) → has_handle o [] ≡ false
unfolding has_handle
has_handle-nil none = refl
has_handle-nil (some id) = refl

unattached :
    (node_id : String) (hs : List Handle) (e : Edge)
    → (e.target == node_id) ≡ true
    → has_handle e.target_handle hs ≡ false
    → is_attached node_id (outputs_only hs) e ≡ false
unfolding is_ghost_source is_ghost_target
unattached node_id hs e at_node lost =
    rw (attached-ghost node_id (outputs_only hs) e, at_node, lost, has_handle-nil e.target_handle)
      (ground arith)

-- Where a handle of the entrypoint is entered again, it takes the place of the first handle with its id, and
-- all handles that stood after that one are gone; so are the edges at them, once the node has been drawn.
pub on_handle_change-drops :
    (store : EdgeStore) (node_id : String) (h k : Handle) (xs ys : List Handle) (e : Edge)
    (es fs : List Edge)
    → has_handle (some h.id) xs ≡ false
    → same_name k.id h.id ≡ true
    → IsUnique (edge_ids (es ++ e ∷ fs))
    → (e.target == node_id) ≡ true
    → has_handle e.target_handle (xs ++ h ∷ []) ≡ false
    → let hs = on_handle_change h (xs ++ k ∷ ys) in
      (hs ≡ xs ++ h ∷ [])
      × (has e.id (edge_ids (delete_ghost_edges store node_id (outputs_only hs) (es ++ e ∷ fs)))
          ≡ false)
on_handle_change-drops store node_id h k xs ys e es fs fresh same unique at_node lost =
    let hs = on_handle_change-append h xs k ys fresh same in
    (
      hs,
      rw
          (
            hs,
            delete_ghost_edges_lem store node_id (outputs_only (xs ++ h ∷ [])) (es ++ e ∷ fs)
                unique,
          )
          (All-at _ es e fs (
              has-filter_ids (is_attached node_id (outputs_only (xs ++ h ∷ []))) (es ++ e ∷ fs)
                unique)
            ∙ unattached node_id (xs ++ h ∷ []) e at_node lost),
    )
