-- ===== src/Secret/Tests.antt =====
-- A text that the cipher opens.
use supallm.Common.{ℕ, String, Option, some, List, [], ◌∷◌, ◌++◌}

abbrev nonce : List ℕ
nonce = 1 ∷ 2 ∷ 3 ∷ 4 ∷ 5 ∷ 6 ∷ 7 ∷ 8 ∷ 9 ∷ 10 ∷ 11 ∷ 12 ∷ []

abbrev tag : List ℕ
tag = 1 ∷ 1 ∷ 1 ∷ 1 ∷ 1 ∷ 1 ∷ 1 ∷ 1 ∷ 1 ∷ 1 ∷ 1 ∷ 1 ∷ 1 ∷ 1 ∷ 1 ∷ 1 ∷ []

abbrev from_hex : String → List ℕ
from_hex s = nonce ++ ((77 ∷ 78 ∷ []) ++ tag)

abbrev decipher : List ℕ → List ℕ → List ℕ → List ℕ → Option String
decipher key n text t = some "key"
