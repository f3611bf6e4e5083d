-- ===== src/Frontend/Results/Joined.antt =====
-- What the result of a run consists of.
use supallm.Common.{
  String, Option, none, some, List, [], ◌∷◌, ◌++◌, ◌≡◌, refl, ap, ◌∙◌, ◌==◌, if◌then◌else◌, Dict,
  get, get-set, Option-cases, inl, inr, text_cases,
}
use mathlib.Core.List.{append_assoc, append-nil}
use supallm.Common.Chars.{Chars}
use supallm.Frontend.Results.{FlowResultStreamEvent, add_result, add_results, final_result}

-- The values of a field, in the order of the events.
unfoldable pub values_of : String → List FlowResultStreamEvent → List Chars
values_of name [] = []
values_of name (event ∷ events) =
    let rest = values_of name events in
    if event.field_name == name then event.value ∷ rest else rest

unfoldable pub joined : List Chars → Chars
joined [] = []
joined (value ∷ values) = value ++ joined values

abbrev pub followed_by : Option Chars → List Chars → Option Chars
followed_by o [] = o
followed_by none (value ∷ values) = some (joined (value ∷ values))
followed_by (some before) (value ∷ values) = some (before ++ joined (value ∷ values))

get-add_result :
    (name : String) (event : FlowResultStreamEvent) (result : Dict Chars)
    → get name (add_result event result) ≡ (
        if event.field_name == name
        then followed_by (get event.field_name result) (event.value ∷ [])
        else get name result)
unfolding add_result joined
get-add_result name event result = elim (Option-cases (get event.field_name result)) [
  | inl k ↦
      rw (add_result, k, append-nil event.value) (get-set event.field_name name event.value result)
  | inr ([], k) ↦
      rw (add_result, k, append-nil event.value) (get-set event.field_name name event.value result)
  | inr (c ∷ before, k) ↦
      rw (add_result, k, append-nil event.value)
        (get-set event.field_name name ((c ∷ before) ++ event.value) result)
]

followed_by-cons :
    (o : Option Chars) (value : Chars) (values : List Chars)
    → followed_by (followed_by o (value ∷ [])) values ≡ followed_by o (value ∷ values)
unfolding joined
followed_by-cons none value [] = refl
followed_by-cons none value (v ∷ values) =
    ap (λ t. some (t ++ joined (v ∷ values))) (append-nil value)
followed_by-cons (some before) value [] = refl
followed_by-cons (some before) value (v ∷ values) =
    rw (append-nil value, append_assoc before value (joined (v ∷ values))) refl

get-add_results :
    (name : String) (events : List FlowResultStreamEvent) (result : Dict Chars)
    → get name (add_results events result) ≡ followed_by (get name result) (values_of name events)
unfolding add_results values_of
get-add_results name [] result = refl
get-add_results name (event ∷ events) result =
    let later = get-add_results name events (add_result event result) in
    elim (text_cases event.field_name name) [
      | inl (e, same) ↦
          later
          ∙ ap (λ o. followed_by o (values_of name events)) (get-add_result name event result)
          ∙ rw (e, same) (followed_by-cons (get name result) event.value (values_of name events))
      | inr e ↦
          later
          ∙ ap (λ o. followed_by o (values_of name events)) (get-add_result name event result)
          ∙ rw e refl
    ]

-- What is shown for a field.
abbrev pub field_of : String → Option (Dict Chars) → Option Chars
field_of name none = none
field_of name (some result) = get name result

-- The field of a result is all that was streamed for it, in the order of the events; a field for which
-- nothing was streamed is not there.
pub final_result-fields :
    (name : String) (events : List FlowResultStreamEvent)
    → field_of name (final_result events) ≡ followed_by none (values_of name events)
unfolding final_result get values_of
final_result-fields name [] = refl
final_result-fields name (event ∷ events) = get-add_results name (event ∷ events) []
