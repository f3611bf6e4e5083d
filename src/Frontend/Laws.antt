-- ===== src/Frontend/Laws.antt =====
-- What is in the stores.
use supallm.Common.{
  String, false, Option, none, some, List, [], ◌∷◌, ◌≡◌, refl, ◌==◌, map, if◌then◌else◌, arith,
  text_cases, Option-cases, inl, inr, eq_iff, eq_refl, has, ok,
}
use supallm.Values.{Fields, spread}
use supallm.Frontend.{
  id_of, find, add, patch_item, patch, delete, upsert, Client, patch_current_flow, end_patch_flow,
}

-- The changes leave an item with the id as it is called.
abbrev pub KeepsId : String → Fields → Type 0
KeepsId id changes = (item : Fields) → id_of item ≡ id → id_of (spread item changes) ≡ id

abbrev pub changed : Fields → Option Fields → Option Fields
changed changes none = none
changed changes (some item) = some (spread item changes)

unfoldable pub ids : List Fields → List String
ids list = map id_of list

find-patch :
    (id j : String) (changes : Fields) (list : List Fields)
    → KeepsId id changes
    → find j (patch id changes list)
      ≡ (if id == j then changed changes (find j list) else find j list)
unfolding find patch patch_item
find-patch id j changes [] k = ground arith
find-patch id j changes (item ∷ list) k = elim (text_cases (id_of item) id) [
  | inl (e, same) ↦
      rw (patch_item, e, k item same)
        (ground (
          arith,
          find-patch id j changes list k,
          e,
          eq_iff (id_of item) id,
          eq_iff (id_of item) j,
          eq_iff id j,
        ))
  | inr e ↦
      rw (patch_item, e)
        (ground (
          arith,
          find-patch id j changes list k,
          e,
          eq_iff (id_of item) id,
          eq_iff (id_of item) j,
          eq_iff id j,
        ))
]

find-id :
    (id : String) (list : List Fields) (item : Fields) → find id list ≡ some item → id_of item ≡ id
unfolding find
find-id id [] item h = ground arith
find-id id (x ∷ list) item h = ground (arith, find-id id list item, eq_iff (id_of x) id)

-- An action on a store that changes no item's id and adds no id that is there.
pub data Action : List Fields → List Fields → Type 0 where
  adds :
      (item : Fields) (list : List Fields)
      → has (id_of item) (ids list) ≡ false
      → Action list (add item list)
  patches :
      (id : String) (changes : Fields) (list : List Fields)
      → KeepsId id changes
      → Action list (patch id changes list)
  deletes : (id : String) (list : List Fields) → Action list (delete id list)
  upserts :
      (changes : Fields) (list : List Fields)
      → KeepsId (id_of changes) changes
      → Action list (upsert changes list)

pub data Actions : List Fields → List Fields → Type 0 where
  finished : (list : List Fields) → Actions list list
  next : (a b c : List Fields) → Action a b → Actions b c → Actions a c

find-add :
    (j : String) (item : Fields) (list : List Fields)
    → find (id_of item) list ≡ none
    → find j (add item list) ≡ (if id_of item == j then some item else find j list)
unfolding find add
find-add j item [] h = refl
find-add j item (x ∷ list) h = ground (
  arith,
  find-add j item list,
  eq_iff (id_of x) (id_of item),
  eq_iff (id_of x) j,
  eq_iff (id_of item) j,
  h,
)

-- The item as the changes leave it.
abbrev pub upserted : Fields → Option Fields → Fields
upserted changes none = changes
upserted changes (some item) = spread item changes

-- After `upsert` the item with the id of the data is what was there, overwritten by the data, or else the
-- data; every other item is as it was.
pub find-upsert :
    (j : String) (changes : Fields) (list : List Fields)
    → KeepsId (id_of changes) changes
    → find j (upsert changes list)
      ≡ (if id_of changes == j then some (upserted changes (find j list)) else find j list)
unfolding upsert
find-upsert j changes list k = elim (Option-cases (find (id_of changes) list)) [
  | inl e ↦ rw (upsert, e) (ground (arith, find-add j changes list e, e, eq_iff (id_of changes) j))
  | inr (item, e) ↦
      rw (upsert, e)
        (ground (arith, find-patch (id_of changes) j changes list k, e, eq_iff (id_of changes) j))
]

-- A flow is saved that is still open when the service answers: its entry in the list and the current flow
-- are the same after that.
pub end_patch_flow-agrees :
    (id : String) (changes : Fields) (c : Client) (opened : Fields)
    → KeepsId id changes
    → c.current_flow ≡ some opened
    → find id c.list ≡ some opened
    → let after = end_patch_flow id changes (ok tt) c in after.current_flow ≡ find id after.list
unfolding end_patch_flow patch_current_flow
end_patch_flow-agrees id changes c opened k current listed =
    rw (current, find-patch id id changes c.list k, eq_refl id, listed) refl
