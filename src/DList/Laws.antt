-- ===== src/DList/Laws.antt =====
-- The sorted list of utils.c holds one node for each key.
use oseid_simulavr.Base.{Bool, true, none, some, List, [], ◌∷◌, ◌≡◌, arith}
use package.oseid_simulavr.DList.{dlist_add, dlist_delete, dlist_lookup}

-- `y` is a key for `x`.
module _ {ℓ} {A : Type ℓ} (same : A → A → Bool) (x y : A) (key : (d : A) → same d y ≡ same d x)
    (found : same x x ≡ true) where
  pub dlist_lookup-dlist_add :
      (xs : List A)
      → dlist_lookup same y xs ≡ none
      → dlist_lookup same y (dlist_add same x xs) ≡ some x
  unfolding dlist_lookup dlist_add
  dlist_lookup-dlist_add [] h = ground (arith, key x, found)
  dlist_lookup-dlist_add (d ∷ rest) h = ground (arith, key d, dlist_lookup-dlist_add rest)

  pub dlist_delete-dlist_add :
      (xs : List A) → dlist_lookup same y xs ≡ none → dlist_delete same y (dlist_add same x xs) ≡ xs
  unfolding dlist_lookup dlist_add dlist_delete
  dlist_delete-dlist_add [] h = ground (arith, key x, found)
  dlist_delete-dlist_add (d ∷ rest) h = ground (arith, key d, dlist_delete-dlist_add rest)

  -- A second item with the same key is dropped.
  pub dlist_add-dlist_add :
      (xs : List A) → dlist_add same x (dlist_add same x xs) ≡ dlist_add same x xs
  unfolding dlist_add
  dlist_add-dlist_add [] = ground (arith, found)
  dlist_add-dlist_add (d ∷ rest) = ground (arith, dlist_add-dlist_add rest)
