-- ===== src/Table/Laws.antt =====
-- Reading a table after an upsert or a delete.
use supply_chain_tracker.Prelude.{
  ℕ, ◌≡◌, none, some, [], ◌∷◌, ◌==◌, if◌then◌else◌, arith, All, Bool-cases, inl, inr,
}
use supply_chain_tracker.Table.{Table, find, upsert, delete_where, stored}

module _ {ℓ} {R : Type ℓ} (key : R → ℕ) where
  -- A row that is found has the key that was asked for.
  pub key-find : (k : ℕ) (t : Table R) {r : R} → find key k t ≡ some r → key r ≡ k
  key-find k [] h = cc
  key-find k (x ∷ t) {r} h = grind (arith, key-find k t)

  pub find-upsert :
      (merge : R → R → R)
      → ((old new : R) → key (merge old new) ≡ key old)
      → (k : ℕ) (new : R) (t : Table R)
      → find key k (upsert key merge new t)
        ≡ (if key new == k then some (stored key merge new t) else find key k t)
  find-upsert merge same k new [] = ground arith
  find-upsert merge same k new (x ∷ t) = ground (arith, same x new, find-upsert merge same k new t)

  pub find-delete_where :
      (k j : ℕ) (t : Table R)
      → find key j (delete_where key k t) ≡ (if k == j then none else find key j t)
  find-delete_where k j [] = ground arith
  find-delete_where k j (x ∷ t) = ground (arith, find-delete_where k j t)

  -- What holds of every row holds of a row that is found.
  pub find-All {κ} :
      (P : R → Type κ) (k : ℕ) (t : Table R) (r : R) → All P t → find key k t ≡ some r → P r
  find-All P k [] r h found = absurd (cc found)
  find-All P k (x ∷ t) r (here, rest) found = elim (Bool-cases (key x == k)) [
    | inl e ↦
        let same : some x ≡ some r = rw e at found in let first : x ≡ r = cc in rw (← first) here
    | inr e ↦ let later : find key k t ≡ some r = rw e at found in find-All P k t r rest later
  ]
