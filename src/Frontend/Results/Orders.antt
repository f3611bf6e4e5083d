-- ===== src/Frontend/Results/Orders.antt =====
-- In which order the events are shown, once the list of the logs has been looked at.
use mathlib.Core.List.{reverse, reverse-append, reverse-reverse}
use supallm.Common.{
  String, Bool, true, false, none, List, [], ◌∷◌, ◌≡◌, refl, ap, ◌∙◌, not, ◌&&◌, if◌then◌else◌,
  Bool-cases, inl, inr,
}
use supallm.Frontend.Results.{
  FlowResultStreamEvent, final_result, Pane, full_result_pane, logs_pane, Panel, memoized, is_logs,
  select_pane, receive, show_latest, take,
}
use supallm.Frontend.Results.Joined.{field_of, followed_by, values_of, final_result-fields}

unfoldable pub select_panes : List Pane → Panel → Panel
unfolding select_pane
select_panes [] p = p
select_panes (pane ∷ panes) p = select_panes panes (select_pane pane p)

-- Whether clicks open the list of the logs an odd number of times, from a pane on.
unfoldable pub is_turned : Pane → List Pane → Bool
is_turned from [] = false
is_turned from (pane ∷ panes) =
    let later = is_turned pane panes in
    if is_logs pane && not (is_logs from) then not later else later

abbrev pub turned : {A : Type 0} → Bool → List A → List A
turned b xs = if b then reverse xs else xs

select_pane-events :
    (pane : Pane) (p : Panel)
    → ((select_pane pane p).events ≡ turned (is_logs pane && not (is_logs p.active_pane)) p.events)
      × ((select_pane pane p).active_pane ≡ pane)
unfolding select_pane memoized show_latest
select_pane-events pane p = elim (Bool-cases (is_logs pane)) [
  | inr e ↦ rw (select_pane, e) (refl, refl)
  | inl e ↦ elim (Bool-cases (is_logs p.active_pane)) [
    | inl k ↦ rw (select_pane, e, k) (refl, refl)
    | inr k ↦ rw (select_pane, e, k) (refl, refl)
  ]
]

turned-turned :
    {A : Type 0} (a b : Bool) (xs : List A)
    → turned b (turned a xs) ≡ turned (if a then not b else b) xs
turned-turned true true xs = reverse-reverse xs
turned-turned true false xs = refl
turned-turned false true xs = refl
turned-turned false false xs = refl

select_panes-events :
    (panes : List Pane) (p : Panel)
    → (select_panes panes p).events ≡ turned (is_turned p.active_pane panes) p.events
unfolding select_panes is_turned
select_panes-events [] p = refl
select_panes-events (pane ∷ panes) p =
    let (e, k) = select_pane-events pane p in
    select_panes-events panes (select_pane pane p)
    ∙ ap (λ from. turned (is_turned from panes) (select_pane pane p).events) k
    ∙ ap (turned (is_turned pane panes)) e
    ∙ turned-turned (is_logs pane && not (is_logs p.active_pane)) (is_turned pane panes) p.events

-- After any clicks on the panes, a field of the result is what was streamed for it in the order of the
-- events, or, where the clicks have opened the list of the logs an odd number of times, in the opposite
-- order.
pub select_panes-final_result :
    (name : String) (panes : List Pane) (p : Panel)
    → field_of name (final_result (select_panes panes p).events)
      ≡ followed_by none (values_of name (turned (is_turned p.active_pane panes) p.events))
select_panes-final_result name panes p =
    final_result-fields name (select_panes panes p).events
    ∙ ap (λ events. followed_by none (values_of name events)) (select_panes-events panes p)

-- Where the list of the logs is opened and one more event comes, what it shows is five events of which the
-- new one is the first and the others are the oldest.
pub receive-shown :
    (event : FlowResultStreamEvent) (p : Panel)
    → p.active_pane ≡ full_result_pane
    → (receive event (select_pane logs_pane p)).shown ≡ take 5 (event ∷ p.events)
unfolding receive select_pane memoized show_latest
receive-shown event p h =
    rw (receive, select_pane, h)
      (ap (take 5) (
        reverse-append (reverse p.events) (event ∷ [])
        ∙ ap (λ xs. event ∷ xs) (reverse-reverse p.events)))
