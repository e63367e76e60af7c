-- ===== src/Table/Ordering.antt =====
-- SELECT ... WHERE ... ORDER BY returns the rows that satisfy the condition: which keys it returns.
use supply_chain_tracker.Prelude.{
  ℕ, ◌≡◌, refl, Bool, true, false, ◌||◌, none, some, List, [], ◌∷◌, ◌==◌, filter, map, elem, arith,
  Bool-cases, inl, inr, ◌∙◌, ap, sym, ==_sound, All, take, zero, suc, leb,
}
use supply_chain_tracker.Table.{Table, find, insert_row, order_by}

-- No two rows have one key.
abbrev pub HasUniqueKeys {ℓ} : {R : Type ℓ} → (R → ℕ) → Table R → Type ℓ
HasUniqueKeys key [] = Unit
HasUniqueKeys key (r ∷ t) = (find key (key r) t ≡ none) × HasUniqueKeys key t

module _ {ℓ} {R : Type ℓ} (key : R → ℕ) where
  elem-insert_row :
      (by : R → ℕ) (k : ℕ) (r : R) (rs : List R)
      → elem k (map key (insert_row by r rs)) ≡ (key r == k || elem k (map key rs))
  unfolding insert_row
  elem-insert_row by k r [] = refl
  elem-insert_row by k r (x ∷ xs) = ground (arith, elem-insert_row by k r xs)

  pub elem-order_by :
      (by : R → ℕ) (k : ℕ) (rs : List R) → elem k (map key (order_by by rs)) ≡ elem k (map key rs)
  unfolding order_by
  elem-order_by by k [] = refl
  elem-order_by by k (r ∷ rs) =
      elem-insert_row by k r (order_by by rs) ∙ (λ i. key r == k || elem-order_by by k rs i)

  elem-filter_missing :
      (p : R → Bool) (k : ℕ) (t : Table R)
      → find key k t ≡ none
      → elem k (map key (filter p t)) ≡ false
  elem-filter_missing p k [] h = refl
  elem-filter_missing p k (r ∷ t) h = ground (arith, elem-filter_missing p k t)

  elem-filter_here :
      (p : R → Bool) (k : ℕ) (x : R) (t : Table R)
      → (key x == k) ≡ true
      → HasUniqueKeys key (x ∷ t)
      → elem k (map key (filter p (x ∷ t))) ≡ p x
  elem-filter_here p k x t here u = elim (Bool-cases (p x)) [
    | inl yes' ↦ rw yes' (rw here)
    | inr no' ↦
        rw no'
          (elem-filter_missing p k t (ap (λ j. find key j t) (sym (==_sound (key x) k here)) ∙ u.0))
  ]

  -- With unique keys, the key of a row is selected exactly if the row satisfies the condition.
  pub elem-filter :
      (p : R → Bool) (k : ℕ) (t : Table R) (r : R)
      → HasUniqueKeys key t
      → find key k t ≡ some r
      → elem k (map key (filter p t)) ≡ p r
  elem-filter p k [] r u h = cc
  elem-filter p k (x ∷ t) r u h = elim (Bool-cases (key x == k)) [
    | inr other ↦ ground (arith, elem-filter p k t r u.1)
    | inl here ↦
        let same : some x ≡ some r = rw here at h in
        let first : x ≡ r = cc in rw (← first) (elem-filter_here p k x t here u)
  ]

-- What holds of every row holds of the rows of an ORDER BY and of a LIMIT.
module _ {ℓ κ} {R : Type ℓ} (P : R → Type κ) where
  insert_row-All : (by : R → ℕ) (r : R) (rs : List R) → P r → All P rs → All P (insert_row by r rs)
  unfolding insert_row
  insert_row-All by r [] h hs = (h, hs)
  insert_row-All by r (x ∷ xs) h (hx, hs) = elim (Bool-cases (leb (by r) (by x))) [
    | inl e ↦ rw e (h, (hx, hs))
    | inr e ↦ rw e (hx, insert_row-All by r xs h hs)
  ]

  pub order_by-All : (by : R → ℕ) (rs : List R) → All P rs → All P (order_by by rs)
  unfolding order_by
  order_by-All by [] h = h
  order_by-All by (r ∷ rs) (h, hs) = insert_row-All by r (order_by by rs) h (order_by-All by rs hs)

  pub take-All : (n : ℕ) (rs : List R) → All P rs → All P (take n rs)
  take-All zero rs h = tt
  take-All (suc n) [] h = tt
  take-All (suc n) (r ∷ rs) (h, hs) = (h, take-All n rs hs)
