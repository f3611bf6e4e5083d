-- ===== src/Context/Redis/Laws.antt =====
-- What the Redis context service keeps of a context.
use supallm.Common.{
  String, true, false, Option, none, some, List, [], ◌∷◌, ◌++◌, Dict, get, has, add, ok, error, ◌≡◌,
  refl, sym, ap, arith, eq_refl, eq_iff, ◌==◌, IsUnique, has-append, ◌∙◌,
}
use mathlib.Core.Path.{ap₂}
use mathlib.Core.List.{append_assoc, append-nil}
use supallm.Values.{
  Value, undefined, null, Fields, end, field, obj, arr, Items, nil, cons, bool, num, str,
}
use supallm.Nodes.{context_not_found}
use supallm.Context.{NodeExecution, ExecutionContext, WorkflowDefinition, ExecutionOptions}
use supallm.Context.Redis.{
  is_finite, json_value, json_items, json_fields, json_executions, to_set_from, to_set,
  serialize_context, deserialize_context, initialize, update_context, get_context, get_key, Db,
  expire, read_entry, initialize_context, get-update,
}

-- A value that JSON has: no `undefined` in it, no number that is not finite, and no -0.
unfoldable mutual
  pub IsJson : Value → Type 0
  IsJson undefined = ⊥
  IsJson null = Unit
  IsJson (bool b) = Unit
  IsJson (num n) = (is_finite n ≡ true) × ((n == "-0") ≡ false)
  IsJson (str s) = Unit
  IsJson (arr xs) = AreJson xs
  IsJson (obj fs) = HasJson fs

  pub AreJson : Items → Type 0
  AreJson nil = Unit
  AreJson (cons v xs) = IsJson v × AreJson xs

  pub HasJson : Fields → Type 0
  HasJson end = Unit
  HasJson (field k v fs) = IsJson v × HasJson fs

mutual
  unfolding json_value IsJson

  json_value-eq : (v : Value) → IsJson v → json_value v ≡ v
  json_value-eq undefined h = absurd h
  json_value-eq null h = refl
  json_value-eq (bool b) h = refl
  json_value-eq (num n) (h, k) = rw (h, k) refl
  json_value-eq (str s) h = refl
  json_value-eq (arr xs) h = ap arr (json_items-eq xs h)
  json_value-eq (obj fs) h = ap obj (json_fields-eq fs h)

  json_items-eq : (xs : Items) → AreJson xs → json_items xs ≡ xs
  json_items-eq nil h = refl
  json_items-eq (cons undefined xs) (h, hs) = absurd h
  json_items-eq (cons v xs) (h, hs) = ap₂ cons (json_value-eq v h) (json_items-eq xs hs)

  json_fields-eq : (fs : Fields) → HasJson fs → json_fields fs ≡ fs
  json_fields-eq end h = refl
  json_fields-eq (field k undefined fs) (h, hs) = absurd h
  json_fields-eq (field k v fs) (h, hs) = ap₂ (field k) (json_value-eq v h) (json_fields-eq fs hs)

to_set_from-eq :
    (seen xs : List String)
    → IsUnique xs
    → ((x : String) → has x xs ≡ true → has x seen ≡ false)
    → to_set_from seen xs ≡ seen ++ xs
unfolding to_set_from add has
to_set_from-eq seen [] u apart = sym (append-nil seen)
to_set_from-eq seen (x ∷ xs) (fresh, u) apart =
    let new : has x seen ≡ false = apart x (ground (arith, eq_refl x)) in
    let ih =
      to_set_from-eq (seen ++ x ∷ []) xs u
        (λ y h. ground (arith, has-append y seen (x ∷ []), eq_iff x y, apart y (ground arith))) in
    rw new (ih ∙ append_assoc seen (x ∷ []) xs)

abbrev pub MaybeJson : Option Fields → Type 0
MaybeJson none = Unit
MaybeJson (some fs) = HasJson fs

abbrev pub AreRecorded : Dict NodeExecution → Type 0
AreRecorded [] = Unit
AreRecorded ((k, e) ∷ d) = MaybeJson e.inputs × MaybeJson e.output × AreRecorded d

MaybeJson-eq :
    (o : Option Fields)
    → MaybeJson o
    → (elim o [ none ↦ none | some fs ↦ some (json_fields fs) ]) ≡ o
MaybeJson-eq none h = refl
MaybeJson-eq (some fs) h = ap some (json_fields-eq fs h)

json_executions-eq : (d : Dict NodeExecution) → AreRecorded d → json_executions d ≡ d
unfolding json_executions
json_executions-eq [] h = refl
json_executions-eq ((k, e) ∷ d) (a, b, h) = λ i.
    (k, record e { inputs = MaybeJson-eq e.inputs a i; output = MaybeJson-eq e.output b i })
    ∷ json_executions-eq d h i

-- Every value that the context holds is one that JSON has.
pub record IsStorable (c : ExecutionContext) : Type 0 where
  pub completed_unique : IsUnique c.completed_nodes
  pub all_unique : IsUnique c.all_nodes
  pub inputs_json : HasJson c.workflow_inputs
  pub executions_json : AreRecorded c.node_executions

-- A context whose sets have no duplicates and whose values are JSON (no undefined, no number that is not
-- finite, no -0) is read back as it was written: the arrays become the same sets again.
pub deserialize-serialize :
    (c : ExecutionContext) → IsStorable c → deserialize_context (serialize_context c) ≡ c
unfolding deserialize_context serialize_context to_set has
deserialize-serialize c s =
    let completed = to_set_from-eq [] c.completed_nodes s.completed_unique (λ x h. refl) in
    let all = to_set_from-eq [] c.all_nodes s.all_unique (λ x h. refl) in
    λ i. record c {
      workflow_inputs = json_fields-eq c.workflow_inputs s.inputs_json i;
      node_executions = json_executions-eq c.node_executions s.executions_json i;
      completed_nodes = completed i;
      all_nodes = all i;
    }

-- A message that is delivered again, after the first delivery saved a context, takes that context
-- over, whatever definition and inputs it brings; nothing is written.
pub initialize-update :
    (db db' : Db) (w : String) (c : ExecutionContext) (definition : WorkflowDefinition)
    (options : ExecutionOptions)
    → update_context db w options.trigger_id c ≡ ok db'
    → initialize db' w definition options ≡ (ok (deserialize_context (serialize_context c)), db')
unfolding initialize
initialize-update db db' w c definition options h =
    ground (arith, get-update db db' w options.trigger_id c h)

get-expire : (k : String) (db : Db) → get k (expire k db) ≡ none
unfolding expire get
get-expire k [] = refl
get-expire k ((j, e) ∷ db) = ground (arith, get-expire k db)

-- Once the entry has expired, a context in memory can no longer be saved, and a new message of the same
-- trigger starts from the beginning.
pub update_context-expire :
    (db : Db) (w : String) (c : ExecutionContext) (definition : WorkflowDefinition)
    (options : ExecutionOptions)
    → (update_context (expire (get_key w options.trigger_id) db) w options.trigger_id c
        ≡ error context_not_found)
      × ((initialize (expire (get_key w options.trigger_id) db) w definition options).0
          ≡ ok (initialize_context w definition options))
unfolding update_context initialize get_context read_entry
update_context-expire db w c definition options =
    let e = get-expire (get_key w options.trigger_id) db in (ground (arith, e), ground (arith, e))
