-- ===== src/Frontend/Hooks.antt =====
-- The hooks around asynchronous functions: frontend/src/hooks/hookify.ts and hookify-function.ts. What becomes
-- of the calls, several of which can be pending at a time, is the order of the events.
pub mod Settled
mod Tests
use supallm.Common.{Bool, true, false, Option, none, some, List, [], ◌∷◌}

-- `started` is a run of the effect, or a call of the wrapped function.
pub data HookEvent (A E : Type 0) : Type 0 where
  started : HookEvent A E
  resolved : A → HookEvent A E
  rejected : E → HookEvent A E

pub record HookReturn (A E : Type 0) : Type 0 where
  pub result : A
  pub is_loading : Bool
  pub error : Option E

-- `Hookify`
unfoldable pub initial : {A E : Type 0} → A → HookReturn A E
initial initial_value = record { result = initial_value; is_loading = true; error = none }

unfoldable pub hookify : {A E : Type 0} → HookEvent A E → HookReturn A E → HookReturn A E
hookify started s = record s { is_loading = true }
hookify (resolved value) s = record s { result = value; is_loading = false }
hookify (rejected failure) s = record s { error = some failure; is_loading = false }

unfoldable pub hookify_all : {A E : Type 0} → List (HookEvent A E) → HookReturn A E → HookReturn A E
unfolding hookify
hookify_all [] s = s
hookify_all (e ∷ es) s = hookify_all es (hookify e s)

-- `hookifyFunction`; `is_success` is `undefined` at first.
pub record FunctionReturn (A E : Type 0) : Type 0 where
  pub result : Option A
  pub is_loading : Bool
  pub error : Option E
  pub is_success : Option Bool

unfoldable pub reset : {A E : Type 0} → FunctionReturn A E → FunctionReturn A E
reset s = record s { error = none; result = none; is_loading = false; is_success = none }

unfoldable pub hookify_function :
    {A E : Type 0} → HookEvent A E → FunctionReturn A E → FunctionReturn A E
unfolding reset
hookify_function started s = record (reset s) { is_loading = true; error = none }
hookify_function (resolved value) s = record s {
  result = some value;
  is_success = some true;
  is_loading = false;
}
hookify_function (rejected failure) s = record s { error = some failure; is_loading = false }

unfoldable pub hookify_function_all :
    {A E : Type 0} → List (HookEvent A E) → FunctionReturn A E → FunctionReturn A E
unfolding hookify_function
hookify_function_all [] s = s
hookify_function_all (e ∷ es) s = hookify_function_all es (hookify_function e s)
