-- ===== src/Frontend/MockAuthProviderService.antt =====
-- frontend/src/services/mock-auth-provider-service.ts: authentication providers that are kept in the browser.
-- The storage holds the list itself; reading undoes writing it as JSON. Waiting is left out.
mod Tests
use supallm.Common.{
  String, Bool, true, false, Option, none, some, List, [], ◌∷◌, ◌++◌, ◌==◌, if◌then◌else◌, not, map,
  filter,
}
use supallm.Values.{
  Value, undefined, null, bool, num, str, obj, arr, Fields, end, field, get_field, spread,
}
use supallm.Frontend.{id_of}

-- The service's own list, and what the storage has under its key.
pub record MockAuthProviders : Type 0 where
  pub providers : List Fields
  pub storage : Option (List Fields)

-- The service of a page that has just been opened.
unfoldable pub opened : Option (List Fields) → MockAuthProviders
opened storage = record { providers = []; storage = storage }

unfoldable pub load_providers : MockAuthProviders → MockAuthProviders
load_providers s = elim s.storage [ none ↦ s | some providers ↦ record s { providers = providers } ]

unfoldable pub save_providers : MockAuthProviders → MockAuthProviders
save_providers s = record s { storage = some s.providers }

-- The provider that is made of an id and of what is given.
unfoldable pub new_provider : String → Fields → Fields
unfolding get_field
new_provider id given = field "id" (str id) (
    field "name" (get_field "name" given) (
      field "projectId" (get_field "projectId" given)
        (field "config" (get_field "config" given) end)))

unfoldable pub create : String → Fields → MockAuthProviders → MockAuthProviders
unfolding new_provider save_providers
create id given s =
    save_providers (record s { providers = s.providers ++ new_provider id given ∷ [] })

unfoldable pub list_all : MockAuthProviders → MockAuthProviders
unfolding load_providers
list_all s = load_providers s

unfoldable pub delete : String → MockAuthProviders → MockAuthProviders
unfolding save_providers id_of
delete id s =
    save_providers (record s { providers = filter (λ p. not (id_of p == id)) s.providers })

-- `provider?.config ?? {}`; a configuration is an object or is missing.
abbrev pub config_of : Value → Fields
config_of (obj fs) = fs
config_of undefined = end
config_of null = end
config_of (bool b) = end
config_of (num n) = end
config_of (str s) = end
config_of (arr xs) = end

unfoldable pub with_secret_key : String → Fields → Fields
unfolding get_field spread
with_secret_key secret_key provider = spread provider (
    field "config"
      (obj
        (spread (config_of (get_field "config" provider)) (field "secretKey" (str secret_key) end)))
      end)

unfoldable pub patch : String → String → MockAuthProviders → MockAuthProviders
unfolding load_providers save_providers with_secret_key id_of
patch id secret_key s =
    let loaded = load_providers s in
    save_providers (record loaded {
      providers =
          map (λ p. if id_of p == id then with_secret_key secret_key p else p) loaded.providers;
    })
