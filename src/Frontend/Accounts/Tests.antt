-- ===== src/Frontend/Accounts/Tests.antt =====
-- A provider with two settings, whose secret key is changed.
use supallm.Common.{none, some, [], ◌∷◌, ◌≡◌, refl, ok}
use supallm.Values.{str, obj, Fields, end, field, get_field}
use supallm.Frontend.MockAuthProviderService.{with_secret_key}
use supallm.Frontend.Accounts.{
  Stores, patch_auth_provider, get_current_auth_provider, create_project,
}

abbrev a_provider : Fields
a_provider =
    field "id" (str "1")
      (field "config" (obj (field "domain" (str "x.org") (field "secretKey" (str "old") end))) end)

abbrev stores : Stores
stores = record {
  credentials = [];
  projects = [];
  auth_providers = a_provider ∷ [];
  current_project = none;
  auth = record { token = none; user = none };
}

-- The store forgets the other settings, which the service keeps.
kept_by_the_service :
    get_field "config" (with_secret_key "new" a_provider)
    ≡ obj (field "domain" (str "x.org") (field "secretKey" (str "new") end))
unfolding with_secret_key get_field
kept_by_the_service = refl

lost_in_the_store :
    get_current_auth_provider ((patch_auth_provider "1" (some "new") (ok tt) stores).0)
    ≡ some (field "id" (str "1") (field "config" (obj (field "secretKey" (str "new") end)) end))
unfolding get_current_auth_provider patch_auth_provider get_field
lost_in_the_store = refl

-- The current project is the first one that is listed, which another one may be.
not_the_created :
    (create_project
      (ok (field "id" (str "2") end))
      (ok (field "id" (str "1") end ∷ field "id" (str "2") end ∷ []))
      stores).1
    ≡ ok (field "id" (str "1") end)
unfolding create_project
not_the_created = refl
