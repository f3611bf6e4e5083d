-- ===== src/Frontend/MockAuthProviderService/Tests.antt =====
-- Two stored providers.
use supallm.Common.{some, [], ◌∷◌, ◌≡◌, refl}
use supallm.Values.{str, Fields, end, field, get_field}
use supallm.Frontend.MockAuthProviderService.{opened, list_all, delete}
use supallm.Common.{List}

abbrev stored : List Fields
stored = field "id" (str "1") end ∷ field "id" (str "2") end ∷ []

-- Deleting one after the providers have been listed keeps the other.
listed_first :
    (delete "1" (list_all (opened (some stored)))).storage ≡ some (field "id" (str "2") end ∷ [])
unfolding opened list_all delete get_field
listed_first = refl

-- Deleting one before they have been loaded leaves none.
not_loaded : (delete "1" (opened (some stored))).storage ≡ some []
unfolding opened delete
not_loaded = refl
