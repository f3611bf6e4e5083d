-- ===== src/Frontend/Tests.antt =====
-- Two flows, of which one is saved.
use supallm.Common.{◌==◌, if◌then◌else◌, arith, some, [], ◌∷◌, ◌≡◌, refl, ok, has}
use supallm.Values.{Fields, field, end, str, get_field, spread, set_field, get_field-set_field}
use supallm.Frontend.{Client, id_of, find, upsert, end_patch_flow}
use supallm.Common.Chars.{codes}
use supallm.Frontend.Handles.{
  text, handle_type_name, generate_handle_id, parse_handle_id, sanitize_handle_label,
  parse_handle_id-generate_handle_id,
}
use supallm.Frontend.Laws.{KeepsId, ids, find-upsert, upserted}

program : Unit {0}
unfolding upsert end_patch_flow ids get_field has
program = tt

abbrev one : Fields
one = field "id" (str "1") (field "name" (str "first") end)

abbrev two : Fields
two = field "id" (str "2") (field "name" (str "second") end)

abbrev renaming : Fields
renaming = field "name" (str "renamed") end

renaming-KeepsId : KeepsId "1" renaming
unfolding program spread id_of
renaming-KeepsId item h = rw (get_field-set_field "name" "id" (str "renamed") item) h

abbrev client : Client
client = record { list = one ∷ two ∷ []; current_flow = some two }

-- The second flow is open when the save of the first one is answered.
mixed :
    let after = end_patch_flow "1" renaming (ok tt) client in
    (after.current_flow ≡ some (spread two renaming)) × (find (id_of two) after.list ≡ some two)
unfolding program
mixed = (refl, refl)

abbrev changed_one : Fields
changed_one = field "id" (str "1") renaming

changed_one-KeepsId : KeepsId (id_of changed_one) changed_one
unfolding program spread id_of
changed_one-KeepsId item h =
    rw
      (
        get_field-set_field "name" "id" (str "renamed") (set_field "id" (str "1") item),
        get_field-set_field "id" "id" (str "1") item,
      )
      refl

find-upsert_example : find "2" (upsert changed_one client.list) ≡ (
    if id_of changed_one == "2"
    then some (upserted changed_one (find "2" client.list))
    else find "2" client.list)
find-upsert_example = find-upsert "2" changed_one client.list changed_one-KeepsId

-- "0 system prompt" loses its digit.
sanitized : sanitize_handle_label (codes "0 system prompt") ≡ codes "SystemPrompt"
unfolding sanitize_handle_label codes
sanitized = refl

parse_handle_id-generate_handle_id_example :
    parse_handle_id (generate_handle_id text (codes "my prompt"))
    ≡ ok (handle_type_name text, sanitize_handle_label (codes "my prompt"))
unfolding sanitize_handle_label codes
parse_handle_id-generate_handle_id_example =
    parse_handle_id-generate_handle_id text (codes "my prompt") (λ e. ground (arith, e))
