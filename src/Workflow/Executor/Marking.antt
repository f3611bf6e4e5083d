-- ===== src/Workflow/Executor/Marking.antt =====
-- What marking nodes as completed does to the sets of a context.
use supallm.Common.{
  ◌+◌, ◌<◌, ◌≤◌, String, true, false, Bool, List, [], ◌∷◌, Dict, get, has, add, not, ◌==◌, ◌||◌,
  length, filter, every, eq_iff, has-add, has-filter, IsUnique, ◌≡◌, refl, arith, Bool-cases, inl,
  inr, length-append, Option-cases,
}
use supallm.Context.{ExecutionContext, is_ready, remaining_nodes, find_ready_nodes, put_completed}

abbrev pub unmarked : List String → List String → List String
unmarked completed all = filter (λ id. not (has id completed)) all

unmarked-add_absent :
    (id : String) (completed all : List String)
    → has id all ≡ false
    → unmarked (add id completed) all ≡ unmarked completed all
unfolding has
unmarked-add_absent id completed [] h = refl
unmarked-add_absent id completed (x ∷ all) h =
    ground (
      arith,
      has-add id x completed,
      eq_iff id x,
      eq_iff x id,
      unmarked-add_absent id completed all,
    )

pub length-unmarked-add :
    (id : String) (completed all : List String)
    → IsUnique all
    → has id all ≡ true
    → has id completed ≡ false
    → length (unmarked (add id completed) all) + 1 ≡ length (unmarked completed all)
unfolding has
length-unmarked-add id completed [] u h k = ground arith
length-unmarked-add id completed (x ∷ all) (fresh, u) h k = elim (Bool-cases (x == id)) [
  | inl same ↦ ground (
    arith,
    has-add id x completed,
    eq_iff id x,
    eq_iff x id,
    unmarked-add_absent id completed all,
  )
  | inr other ↦ ground (
    arith,
    has-add id x completed,
    eq_iff id x,
    eq_iff x id,
    length-unmarked-add id completed all u,
  )
]

pub length-add :
    (id : String) (completed : List String)
    → has id completed ≡ false
    → length (add id completed) ≡ length completed + 1
unfolding add
length-add id completed h = ground (arith, length-append completed (id ∷ []))

pub add_of_has : (id : String) (xs : List String) → has id xs ≡ true → add id xs ≡ xs
unfolding add
add_of_has id xs h = rw h

pub has-put_completed :
    (id j : String) (c : ExecutionContext)
    → has j (put_completed c id).completed_nodes ≡ (id == j || has j c.completed_nodes)
unfolding put_completed
has-put_completed id j c = has-add id j c.completed_nodes

pub put_completed-all_nodes :
    (id : String) (c : ExecutionContext) → (put_completed c id).all_nodes ≡ c.all_nodes
unfolding put_completed
put_completed-all_nodes id c = refl

pub every_mono :
    (p q : String → Bool) (xs : List String)
    → ((x : String) → p x ≡ true → q x ≡ true)
    → every p xs ≡ true
    → every q xs ≡ true
every_mono p q [] m h = refl
every_mono p q (x ∷ xs) m h = ground (arith, m x, every_mono p q xs m)

-- A ready node stays ready when another is marked.
pub is_ready-put_completed :
    (deps : Dict (List String)) (c : ExecutionContext) (id j : String)
    → is_ready c deps j ≡ true
    → is_ready (put_completed c id) deps j ≡ true
unfolding is_ready put_completed
is_ready-put_completed deps c id j h = elim (Option-cases (get j deps)) [
  | inl e ↦ rw (e, is_ready) refl
  | inr (ds, e) ↦
      rw (e, is_ready)
        (every_mono (λ x. has x c.completed_nodes) (λ x. has x (add id c.completed_nodes)) ds
          (λ x p. ground (arith, has-add id x c.completed_nodes)) (rw (e, is_ready) at h))
]

pub length-filter-le_of :
    (p q : String → Bool) (xs : List String)
    → ((x : String) → q x ≡ true → p x ≡ true)
    → length (filter q xs) ≤ length (filter p xs)
length-filter-le_of p q [] m = omega arith
length-filter-le_of p q (x ∷ xs) m = ground (arith, m x, length-filter-le_of p q xs m)

-- A filter that passes less, and not `id`, keeps fewer.
pub length-filter-lt_of :
    (p q : String → Bool) (id : String) (xs : List String)
    → ((x : String) → q x ≡ true → p x ≡ true)
    → has id xs ≡ true
    → p id ≡ true
    → q id ≡ false
    → length (filter q xs) < length (filter p xs)
unfolding has
length-filter-lt_of p q id [] m h kept gone = ground arith
length-filter-lt_of p q id (x ∷ xs) m h kept gone =
    ground (arith, eq_iff x id, m x, length-filter-le_of p q xs m, length-filter-lt_of p q id xs m)

-- A node that a round starts is one of the workflow, is not completed, and is ready.
pub find_ready_nodes-facts :
    (deps : Dict (List String)) (c : ExecutionContext) (id : String)
    → has id (find_ready_nodes c deps) ≡ true
    → (has id c.all_nodes ≡ true) × (has id c.completed_nodes ≡ false) × (is_ready c deps id ≡ true)
unfolding find_ready_nodes remaining_nodes
find_ready_nodes-facts deps c id h =
    let (remains, ready) = has-filter (is_ready c deps) id (remaining_nodes c) h in
    let (known, fresh) = has-filter (λ x. not (has x c.completed_nodes)) id c.all_nodes remains in
    (known, ground arith, ready)
