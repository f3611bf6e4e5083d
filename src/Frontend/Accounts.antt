-- ===== src/Frontend/Accounts.antt =====
-- The stores and usecases of credentials, projects, authentication providers and of who is logged in:
-- frontend/src/core/store and frontend/src/core/usecases. What the services answer is an argument; where one
-- throws, the usecase throws, unless it says otherwise.
mod Tests
use supallm.Common.{
  String, Bool, true, false, Option, none, some, List, [], ◌∷◌, Result, ok, error, ◌≡◌, refl,
}
use supallm.Values.{Value, str, obj, Fields, end, field, get_field}
use supallm.Nodes.{Error, message}
use supallm.Frontend as F
use supallm.Frontend.MockAuthProviderService.{with_secret_key, config_of}

pub record AuthState : Type 0 where
  pub token : Option String
  pub user : Option Fields

pub record Stores : Type 0 where
  pub credentials : List Fields
  pub projects : List Fields
  pub auth_providers : List Fields
  pub current_project : Option Fields
  pub auth : AuthState

unfoldable pub set_auth_state : AuthState → Stores → Stores
set_auth_state state s = record s { auth = state }

unfoldable pub clear_auth_state : Stores → Stores
clear_auth_state s = record s { auth = record { token = none; user = none } }

unfoldable pub get_current_auth_provider : Stores → Option Fields
get_current_auth_provider s = elim s.auth_providers [ [] ↦ none | p ∷ ps ↦ some p ]

-- What a usecase does to the stores, and what it returns or throws.
unfoldable pub create_credential : Result Fields Error → Stores → Stores × Result Fields Error
unfolding F.add
create_credential (ok credential) s =
    (record s { credentials = F.add credential s.credentials }, ok credential)
create_credential (error e) s = (s, error e)

unfoldable pub list_credentials :
    Result (List Fields) Error → Stores → Stores × Result (List Fields) Error
list_credentials (ok credentials) s = (record s { credentials = credentials }, ok credentials)
list_credentials (error e) s = (s, error e)

unfoldable pub patch_credential :
    String → Value → Result (Unit {0}) Error → Stores → Stores × Result (Unit {0}) Error
unfolding F.patch
patch_credential id name (ok _) s =
    (record s { credentials = F.patch id (field "name" name end) s.credentials }, ok tt)
patch_credential id name (error e) s = (s, error e)

unfoldable pub delete_credential :
    String → Result (Unit {0}) Error → Stores → Stores × Result (Unit {0}) Error
unfolding F.delete
delete_credential id (ok _) s = (record s { credentials = F.delete id s.credentials }, ok tt)
delete_credential id (error e) s = (s, error e)

unfoldable pub list_projects :
    Result (List Fields) Error → Stores → Stores × Result (List Fields) Error
list_projects (ok projects) s = (record s { projects = projects }, ok projects)
list_projects (error e) s = (s, error e)

-- The first project that is listed becomes the current one.
unfoldable pub get_current_project :
    Result (List Fields) Error → Stores → Stores × Result (Option Fields) Error
get_current_project (ok []) s = (s, ok none)
get_current_project (ok (project ∷ projects)) s =
    (record s { current_project = some project }, ok (some project))
get_current_project (error e) s = (s, error e)

-- With the answers of `create` and, after it, of `listAll`.
unfoldable pub create_project :
    Result Fields Error → Result (List Fields) Error → Stores → Stores × Result Fields Error
create_project (ok created) (ok (project ∷ projects)) s =
    (record s { current_project = some project }, ok project)
create_project (ok created) (ok []) s = (s, error (message "Failed to retrieve created project"))
create_project (ok created) (error e) s = (s, error e)
create_project (error e) listed s = (s, error e)

unfoldable pub create_auth_provider : Result Fields Error → Stores → Stores × Result Fields Error
create_auth_provider (ok provider) s = (record s { auth_providers = provider ∷ [] }, ok provider)
create_auth_provider (error e) s = (s, error e)

unfoldable pub list_auth_providers :
    Result (List Fields) Error → Stores → Stores × Result (List Fields) Error
list_auth_providers (ok providers) s = (record s { auth_providers = providers }, ok providers)
list_auth_providers (error e) s = (s, error e)

unfoldable pub delete_auth_provider :
    Result (Unit {0}) Error → Stores → Stores × Result (Unit {0}) Error
delete_auth_provider (ok _) s = (record s { auth_providers = [] }, ok tt)
delete_auth_provider (error e) s = (s, error e)

abbrev or_empty : Option String → String
or_empty none = ""
or_empty (some secret_key) = secret_key

-- `patchAuthProvider(id, { config: { secretKey } })`
unfoldable pub patch_auth_provider :
    String → Option String → Result (Unit {0}) Error → Stores → Stores × Result (Unit {0}) Error
unfolding F.patch
patch_auth_provider id secret_key (ok _) s = (
  record s {
    auth_providers =
        F.patch id (field "config" (obj (field "secretKey" (str (or_empty secret_key)) end)) end)
          s.auth_providers;
  },
  ok tt,
)
patch_auth_provider id secret_key (error e) s = (s, error e)

-- Where the service throws, the answer is null.
unfoldable pub login_with_email_and_password : Result (Option AuthState) Error → Option AuthState
login_with_email_and_password (ok state) = state
login_with_email_and_password (error e) = none

unfoldable pub me : Result (Option Fields) Error → Option Fields
me (ok user) = user
me (error e) = none
