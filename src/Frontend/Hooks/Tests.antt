-- ===== src/Frontend/Hooks/Tests.antt =====
-- Two calls of which the first one is answered last.
use supallm.Common.{◌++◌, ℕ, String, true, false, none, some, List, [], ◌∷◌, ◌≡◌, refl}
use supallm.Frontend.Hooks.{
  HookEvent, FunctionReturn, started, resolved, rejected, initial, hookify_all,
  hookify_function_all,
}
use supallm.Frontend.Hooks.Settled.{
  last_of, or_else, or_option, value_of, failure_of, starts, hookify_all-last, success_of,
  none_left, hookify_function_all-last,
}

abbrev crossed : List (HookEvent ℕ String)
crossed = started ∷ started ∷ resolved 2 ∷ rejected "late" ∷ resolved 1 ∷ []

late_answer :
    hookify_all crossed (initial 0) ≡ record { result = 1; is_loading = false; error = some "late" }
unfolding hookify_all initial
late_answer = refl

loaded_too_early :
    hookify_function_all {A = ℕ} {E = String}
      (started ∷ rejected "no" ∷ started ∷ started ∷ resolved 1 ∷ [])
      (record { result = none; is_loading = false; error = none; is_success = none })
    ≡ record { result = some 1; is_loading = false; error = none; is_success = some true }
unfolding hookify_function_all
loaded_too_early = refl

hookify_all-last_example :
    ((hookify_all crossed (initial 0)).result ≡ or_else (last_of value_of crossed) 0)
    × ((hookify_all crossed (initial 0)).is_loading
        ≡ or_else (last_of (λ e. some (starts e)) crossed) true)
    × ((hookify_all crossed (initial 0)).error ≡ or_option (last_of failure_of crossed) none)
unfolding initial
hookify_all-last_example = hookify_all-last crossed (initial 0)

abbrev first_call : List (HookEvent ℕ String)
first_call = started ∷ rejected "no" ∷ []

abbrev answers : List (HookEvent ℕ String)
answers = resolved 2 ∷ resolved 1 ∷ []

abbrev untouched : FunctionReturn ℕ String
untouched = record { result = none; is_loading = false; error = none; is_success = none }

hookify_function_all-last_example :
    let now = hookify_function_all (first_call ++ started ∷ answers) untouched in
    (now.result ≡ last_of value_of answers)
    × (now.error ≡ last_of failure_of answers)
    × (now.is_success ≡ last_of success_of answers)
    × (now.is_loading ≡ none_left answers true)
hookify_function_all-last_example = hookify_function_all-last first_call answers untouched refl
