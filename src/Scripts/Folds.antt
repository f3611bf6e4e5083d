-- ===== src/Scripts/Folds.antt =====
-- Going through the list of a tree's nodes.
use supallm.Common.{Option, none, some, List, [], ◌∷◌, ◌++◌, ◌≡◌, refl, sym, ap, ◌∙◌}
use mathlib.Core.List.{append-nil, append_assoc}

abbrev pub fold : {A S : Type 0} → (A → S → S) → List A → S → S
fold f [] s = s
fold f (x ∷ xs) s = fold f xs (f x s)

pub fold-append :
    {A S : Type 0} (f : A → S → S) (xs ys : List A) (s : S)
    → fold f (xs ++ ys) s ≡ fold f ys (fold f xs s)
fold-append f [] ys s = refl
fold-append f (x ∷ xs) ys s = fold-append f xs ys (f x s)

abbrev pub gather : {A B : Type 0} → (A → List B) → List A → List B
gather f [] = []
gather f (x ∷ xs) = f x ++ gather f xs

pub fold-gather :
    {A B : Type 0} (f : A → List B → List B) (g : A → List B) (xs : List A) (s : List B)
    → ((x : A) (t : List B) → f x t ≡ t ++ g x)
    → fold f xs s ≡ s ++ gather g xs
fold-gather f g [] s h = sym (append-nil s)
fold-gather f g (x ∷ xs) s h =
    fold-gather f g xs (f x s) h
    ∙ ap (λ t. t ++ gather g xs) (h x s)
    ∙ append_assoc s (g x) (gather g xs)

-- The last element.
unfoldable pub last_of {ℓ} : {A : Type ℓ} → List A → Option A
last_of [] = none
last_of (x ∷ xs) = elim (last_of xs) [ none ↦ some x | some y ↦ some y ]
