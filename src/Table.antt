-- ===== src/Table.antt =====
-- A table of a service's database with its primary key `key`, and the statements that the
-- repositories run against it: SELECT by key, INSERT ... ON CONFLICT DO UPDATE, DELETE by key,
-- SELECT ... WHERE, ORDER BY and LIMIT ... OFFSET.
pub mod Laws
pub mod Ordering
use supply_chain_tracker.Prelude.{
  ℕ, Bool, Option, none, some, List, [], ◌∷◌, ◌==◌, leb, if◌then◌else◌, filter, drop, take,
}

abbrev pub Table {ℓ} : Type ℓ → Type ℓ
Table R = List R

module _ {ℓ} {R : Type ℓ} (key : R → ℕ) where
  -- SELECT ... WHERE key = $1
  abbrev pub find : ℕ → Table R → Option R
  find k [] = none
  find k (r ∷ t) = if key r == k then some r else find k t

  -- INSERT ... ON CONFLICT (key) DO UPDATE SET ...; `merge old new` is the row that an update
  -- leaves
  abbrev pub upsert : (R → R → R) → R → Table R → Table R
  upsert merge new [] = new ∷ []
  upsert merge new (r ∷ t) = if key r == key new then merge r new ∷ t else r ∷ upsert merge new t

  -- DELETE ... WHERE key = $1
  abbrev pub delete_where : ℕ → Table R → Table R
  delete_where k [] = []
  delete_where k (r ∷ t) = let rest = delete_where k t in if key r == k then rest else r ∷ rest

  -- the row that an upsert leaves, and RETURNING gives back
  abbrev pub stored : (R → R → R) → R → Table R → R
  stored merge new t = elim (find (key new) t) [ none ↦ new | some old ↦ merge old new ]

module _ {ℓ} {R : Type ℓ} where
  unfoldable pub insert_row : (R → ℕ) → R → List R → List R
  insert_row by r [] = r ∷ []
  insert_row by r (x ∷ xs) = if leb (by r) (by x) then r ∷ x ∷ xs else x ∷ insert_row by r xs

  -- ORDER BY by ASC; rows with the same value keep their order
  unfoldable pub order_by : (R → ℕ) → List R → List R
  unfolding insert_row
  order_by by [] = []
  order_by by (r ∷ rs) = insert_row by r (order_by by rs)

  insert_row_desc : (R → ℕ) → R → List R → List R
  insert_row_desc by r [] = r ∷ []
  insert_row_desc by r (x ∷ xs) =
      if leb (by x) (by r) then r ∷ x ∷ xs else x ∷ insert_row_desc by r xs

  -- ORDER BY by DESC
  pub order_by_desc : (R → ℕ) → List R → List R
  unfolding insert_row_desc
  order_by_desc by [] = []
  order_by_desc by (r ∷ rs) = insert_row_desc by r (order_by_desc by rs)

  -- LIMIT $1 OFFSET $2
  abbrev pub page : ℕ → ℕ → List R → List R
  page limit offset rs = take limit (drop offset rs)
