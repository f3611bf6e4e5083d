-- ===== src/Llm/Errors.antt =====
-- What the providers of runner/src/nodes/llm tell from texts: `mapProviderError` of llm-utils.ts, and `isChatModel` of
-- openai-provider.ts. `lower_case` is `toLowerCase`, `to_number` is `Number`.
use Prim.Native.String
use supallm.Common.{
  String, Bool, true, false, Option, none, some, List, [], ◌∷◌, ◌==◌, ◌||◌, if◌then◌else◌, nat_eq,
}
use supallm.Common.Chars.{Chars, codes}
use supallm.Values.{Value}

infixr 5 ◌+++◌
abbrev ◌+++◌ : String → String → String
s +++ t = String.◌++◌ s t

unfoldable pub starts_with : Chars → Chars → Bool
starts_with s [] = true
starts_with [] (d ∷ t) = false
starts_with (c ∷ s) (d ∷ t) = let rest = starts_with s t in if nat_eq c d then rest else false

unfoldable pub includes : Chars → Chars → Bool
unfolding starts_with
includes [] t = starts_with [] t
includes (c ∷ s) t = let rest = includes s t in if starts_with (c ∷ s) t then true else rest

-- What is thrown: an `Error`, by its message and the property `status`, if it has one, or something else.
pub data Thrown : Type 0 where
  caught : String → Option Value → Thrown
  not_an_error : Thrown

pub data MappedError : Type 0 where
  missing_api_key model_not_found : String → MappedError
  provider_api : String → Option Value → MappedError

module _ (lower_case : String → String) (to_number : Value → Value) where
  unfoldable pub map_provider_error : Thrown → Option String → String → MappedError
  unfolding includes codes
  map_provider_error not_an_error model provider =
      provider_api ("error with " +++ provider +++ " provider") none
  map_provider_error (caught text status) model provider =
      let message = codes (lower_case text) in
      if includes message (codes "api key")
        || includes message (codes "apikey")
        || includes message (codes "authentication")
        || includes message (codes "unauthorized")
      then missing_api_key ("invalid " +++ provider +++ " API key")
      else if includes message (codes "model")
          || includes message (codes "not found")
          || includes message (codes "doesn't exist")
          || includes message (codes "invalid model")
      then model_not_found (provider +++ " model not found: " +++ model_name model)
      else elim status [
        | some s ↦ provider_api (provider +++ " API error") (some (to_number s))
        | none ↦ provider_api ("error with " +++ provider +++ " provider") none
      ]
    where
      model_name : Option String → String
      model_name none = "unknown"
      model_name (some m) = if m == "" then "unknown" else m

  abbrev some_prefix : Chars → List String → Bool
  some_prefix model [] = false
  some_prefix model (m ∷ ms) =
      let rest = some_prefix model ms in
      if starts_with model (codes (lower_case m)) then true else rest

  unfoldable pub is_chat_model : String → Bool
  unfolding starts_with codes
  is_chat_model model = some_prefix (codes (lower_case model)) (
      "gpt-4" ∷ "gpt-4-turbo" ∷ "gpt-4o" ∷ "gpt-4o-mini" ∷ "gpt-3.5-turbo" ∷ "gpt-3.5"
      ∷ "gpt-35-turbo" ∷ [])
