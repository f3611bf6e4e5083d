-- ===== src/Memory/Tests.antt =====
-- One conversation in the local memory.
use supallm.Common.{String, true, false, [], ◌∷◌, get, ok, ◌≡◌, ◌≢◌, refl}
use supallm.Memory.{human, ai, unlike, turns, Db, get_key, get_messages, add_messages}
use supallm.Memory.Laws.{get_messages-add_messages}

program : Unit {0}
unfolding get_messages add_messages get
program = tt

abbrev kept : Db
kept = (get_key "s" "n", turns (record { input = "hi"; output = "hello"; timestamp = 1 } ∷ [])) ∷ []

get_messages-add_messages_example :
    let after =
      (add_messages 2 kept "s" "n" (unlike "system" ∷ human "why" ∷ ai "so" false ∷ [])).1 in
    (get_messages after "s" "n"
      ≡ ok (human "hi" ∷ ai "hello" false ∷ human "why" ∷ ai "so" false ∷ []))
    × ((key : String) → key ≢ get_key "s" "n" → get key after ≡ get key kept)
unfolding program
get_messages-add_messages_example =
    get_messages-add_messages 2 kept "s" "n" (unlike "system" ∷ [])
      (human "hi" ∷ ai "hello" false ∷ []) "why" "so" refl

-- An answer with tool calls is not remembered.
tools_forgotten : (add_messages 2 kept "s" "n" (human "why" ∷ ai "so" true ∷ [])).1 ≡ kept
unfolding program
tools_forgotten = refl
