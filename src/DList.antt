-- ===== src/DList.antt =====
-- utils.c: the doubly linked list, as the list of its data. `Same d x` stands for `(*cmp) (d, x) == 0`.
pub mod Laws
use oseid_simulavr.Base.{Bool, true, false, Option, none, some, List, [], ◌∷◌, if◌then◌else◌}

module _ {ℓ} {A : Type ℓ} where
  -- With `cmp` NULL.
  unfoldable pub dlist_append : A → List A → List A
  dlist_append x [] = x ∷ []
  dlist_append x (d ∷ rest) = d ∷ dlist_append x rest

  module _ (same : A → A → Bool) where
    unfoldable pub dlist_add : A → List A → List A
    dlist_add x [] = x ∷ []
    dlist_add x (d ∷ rest) = if same d x then d ∷ rest else d ∷ dlist_add x rest

    unfoldable pub dlist_delete : A → List A → List A
    dlist_delete x [] = []
    dlist_delete x (d ∷ rest) = if same d x then rest else d ∷ dlist_delete x rest

    unfoldable pub dlist_lookup : A → List A → Option A
    dlist_lookup x [] = none
    dlist_lookup x (d ∷ rest) = if same d x then some d else dlist_lookup x rest
