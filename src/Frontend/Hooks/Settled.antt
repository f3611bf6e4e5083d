-- ===== src/Frontend/Hooks/Settled.antt =====
-- What the hooks return after some events.
use supallm.Common.{
  Bool, true, false, Option, none, some, List, [], ◌∷◌, ◌++◌, ◌≡◌, refl, ap, ◌∙◌, every, arith,
  Option-cases, inl, inr,
}
use supallm.Frontend.Hooks.{
  HookEvent, started, resolved, rejected, HookReturn, hookify_all, hookify, FunctionReturn,
  hookify_function, hookify_function_all,
}

-- The last of some elements that gives something.
unfoldable pub last_of : {B C : Type 0} → (B → Option C) → List B → Option C
last_of f [] = none
last_of f (x ∷ xs) = elim (last_of f xs) [ some later ↦ some later | none ↦ f x ]

abbrev pub value_of : {A E : Type 0} → HookEvent A E → Option A
value_of started = none
value_of (resolved value) = some value
value_of (rejected failure) = none

abbrev pub failure_of : {A E : Type 0} → HookEvent A E → Option E
failure_of started = none
failure_of (resolved value) = none
failure_of (rejected failure) = some failure

abbrev pub starts : {A E : Type 0} → HookEvent A E → Bool
starts started = true
starts (resolved value) = false
starts (rejected failure) = false

abbrev pub settles : {A E : Type 0} → HookEvent A E → Bool
settles started = false
settles (resolved value) = true
settles (rejected failure) = true

abbrev pub or_else : {A : Type 0} → Option A → A → A
or_else none a = a
or_else (some b) a = b

abbrev pub or_option : {A : Type 0} → Option A → Option A → Option A
or_option none o = o
or_option (some a) o = some a

or_else-last_of :
    {B C : Type 0} (f : B → Option C) (x : B) (xs : List B) (c : C)
    → or_else (last_of f xs) (or_else (f x) c) ≡ or_else (last_of f (x ∷ xs)) c
unfolding last_of
or_else-last_of f x xs c = elim (Option-cases (last_of f xs)) [
  | inl k ↦ rw (last_of, k) refl
  | inr (later, k) ↦ rw (last_of, k) refl
]

or_option-last_of :
    {B C : Type 0} (f : B → Option C) (x : B) (xs : List B) (o : Option C)
    → or_option (last_of f xs) (or_option (f x) o) ≡ or_option (last_of f (x ∷ xs)) o
unfolding last_of
or_option-last_of f x xs o = elim (Option-cases (last_of f xs)) [
  | inl k ↦ rw (last_of, k) refl
  | inr (later, k) ↦ rw (last_of, k) refl
]

hookify-result :
    {A E : Type 0} (e : HookEvent A E) (s : HookReturn A E)
    → ((hookify e s).result ≡ or_else (value_of e) s.result)
      × ((hookify e s).is_loading ≡ starts e)
      × ((hookify e s).error ≡ or_option (failure_of e) s.error)
unfolding hookify
hookify-result started s = (refl, refl, refl)
hookify-result (resolved value) s = (refl, refl, refl)
hookify-result (rejected failure) s = (refl, refl, refl)

-- Whichever calls are answered in whatever order: what a hook returns is the last answer that came, even if
-- it is the one of a call before, and the last failure that came, even if an answer has come since; and it
-- is loading unless something has come since the last call.
pub hookify_all-last :
    {A E : Type 0} (es : List (HookEvent A E)) (s : HookReturn A E)
    → ((hookify_all es s).result ≡ or_else (last_of value_of es) s.result)
      × ((hookify_all es s).is_loading ≡ or_else (last_of (λ e. some (starts e)) es) s.is_loading)
      × ((hookify_all es s).error ≡ or_option (last_of failure_of es) s.error)
unfolding hookify_all last_of
hookify_all-last [] s = (refl, refl, refl)
hookify_all-last (e ∷ es) s =
    let (r, l, f) = hookify_all-last es (hookify e s) in
    let (a, b, c) = hookify-result e s in
    (
      r ∙ ap (or_else (last_of value_of es)) a ∙ or_else-last_of value_of e es s.result,
      l
          ∙ ap (or_else (last_of (λ e. some (starts e)) es)) b
          ∙ or_else-last_of (λ e. some (starts e)) e es s.is_loading,
      f ∙ ap (or_option (last_of failure_of es)) c ∙ or_option-last_of failure_of e es s.error,
    )

abbrev pub success_of : {A E : Type 0} → HookEvent A E → Option Bool
success_of started = none
success_of (resolved value) = some true
success_of (rejected failure) = none

hookify_function-settles :
    {A E : Type 0} (e : HookEvent A E) (s : FunctionReturn A E)
    → settles e ≡ true
    → ((hookify_function e s).result ≡ or_option (value_of e) s.result)
      × ((hookify_function e s).error ≡ or_option (failure_of e) s.error)
      × ((hookify_function e s).is_success ≡ or_option (success_of e) s.is_success)
      × ((hookify_function e s).is_loading ≡ false)
unfolding hookify_function
hookify_function-settles started s h = absurd (ground (arith, h))
hookify_function-settles (resolved value) s h = (refl, refl, refl, refl)
hookify_function-settles (rejected failure) s h = (refl, refl, refl, refl)

abbrev pub none_left : {B : Type 0} → List B → Bool → Bool
none_left [] b = b
none_left (x ∷ xs) b = false

hookify_function_all-settles :
    {A E : Type 0} (es : List (HookEvent A E)) (s : FunctionReturn A E)
    → every settles es ≡ true
    → ((hookify_function_all es s).result ≡ or_option (last_of value_of es) s.result)
      × ((hookify_function_all es s).error ≡ or_option (last_of failure_of es) s.error)
      × ((hookify_function_all es s).is_success ≡ or_option (last_of success_of es) s.is_success)
      × ((hookify_function_all es s).is_loading ≡ none_left es s.is_loading)
unfolding hookify_function_all last_of
hookify_function_all-settles [] s h = (refl, refl, refl, refl)
hookify_function_all-settles (e ∷ es) s h =
    let (r, f, u, l) = hookify_function_all-settles es (hookify_function e s) (ground (arith, h)) in
    let (a, b, c, d) = hookify_function-settles e s (ground (arith, h)) in
    (
      r ∙ ap (or_option (last_of value_of es)) a ∙ or_option-last_of value_of e es s.result,
      f ∙ ap (or_option (last_of failure_of es)) b ∙ or_option-last_of failure_of e es s.error,
      u ∙ ap (or_option (last_of success_of es)) c ∙ or_option-last_of success_of e es s.is_success,
      l ∙ ap (none_left es) d ∙ none_left-false es,
    )
  where
    none_left-false : {B : Type 0} (xs : List B) → none_left xs false ≡ false
    none_left-false [] = refl
    none_left-false (x ∷ xs) = refl

hookify_function_all-append :
    {A E : Type 0} (es fs : List (HookEvent A E)) (s : FunctionReturn A E)
    → hookify_function_all (es ++ fs) s ≡ hookify_function_all fs (hookify_function_all es s)
unfolding hookify_function_all
hookify_function_all-append [] fs s = refl
hookify_function_all-append (e ∷ es) fs s = hookify_function_all-append es fs (hookify_function e s)

or_option-none : {A : Type 0} (o : Option A) → or_option o none ≡ o
or_option-none none = refl
or_option-none (some a) = refl

-- Whatever happened before a call of the wrapped function: until the next call, the result, the failure and
-- the success are those of what has come since, and it is loading until the first thing comes, though that
-- be the answer to a call before.
pub hookify_function_all-last :
    {A E : Type 0} (es fs : List (HookEvent A E)) (s : FunctionReturn A E)
    → every settles fs ≡ true
    → let now = hookify_function_all (es ++ started ∷ fs) s in
      (now.result ≡ last_of value_of fs)
      × (now.error ≡ last_of failure_of fs)
      × (now.is_success ≡ last_of success_of fs)
      × (now.is_loading ≡ none_left fs true)
unfolding hookify_function_all hookify_function
hookify_function_all-last es fs s h =
    let before = hookify_function_all es s in
    let (r, f, u, l) = hookify_function_all-settles fs (hookify_function started before) h in
    rw (hookify_function_all-append es (started ∷ fs) s)
      (r ∙ or_option-none _, f ∙ or_option-none _, u ∙ or_option-none _, l)
