-- ===== src/Shipment/ItemLaws.antt =====
-- What ItemService does to the quantity of an item.
use supply_chain_tracker.Prelude.{
  pos, negsuc, ℕ, suc, ◌≡◌, ◌≤◌, refl, sym, ap, ◌∙◌, true, false, Option, none, some, ◌==◌, ltb,
  ◌+◌, ◌-◌, if◌then◌else◌, arith, ==_refl, ==_sound, Bool-cases, inl, inr,
}
use supply_chain_tracker.Outcome.{returns, raises, value_error, quantity_error}
use supply_chain_tracker.Table.{find, stored, upsert}
use supply_chain_tracker.Table.Laws.{find-upsert}
use supply_chain_tracker.Shipment.Items.{
  ◌+ℤ◌, ◌-ℤ◌, quantity, weight, Setup, Item, ItemRow, ItemDb, item_key, merge_item, item_of_row,
  row_of_item, save_item, upsert_row, get_item,
}
use supply_chain_tracker.Shipment.ItemService.{lowered, increase_quantity, decrease_quantity}

minus-equal : (q n : ℕ) → (q == n) ≡ true → (q -ℤ pos n) ≡ pos 0
unfolding ◌-ℤ◌
minus-equal q n e = rw (==_sound q n e) (ground arith)

minus-less : (q n : ℕ) → q ≤ n → (q == n) ≡ false → (q -ℤ pos n) ≡ negsuc (n - suc q)
unfolding ◌-ℤ◌
minus-less q n small other = ground arith

minus-plus : (q n : ℕ) → ((q + n) -ℤ pos n) ≡ pos q
unfolding ◌-ℤ◌
minus-plus q n = ground arith

positive-plus : (q n : ℕ) → ltb q 1 ≡ false → ltb (q + n) 1 ≡ false
positive-plus q n h = ground arith

module _ {F : Type 0} (env : Setup F) where
  abbrev pub row_at : ℕ → ItemDb F → Option (ItemRow F)
  row_at k s = find item_key k s.items

  -- A row that the service can read and write back: its quantity is positive, its weight is not
  -- negative and fits the column.
  pub record IsValid (row : ItemRow F) : Type 0 where
    pub positive : ltb row.quantity 1 ≡ false
    pub not_negative : env.is_negative row.weight ≡ false
    pub fits : env.to_column row.weight ≡ row.weight

  -- the item of a row
  abbrev item_at : ItemRow F → Item F
  item_at row = record {
    name = row.name;
    quantity = record { value = row.quantity };
    weight = record { value = row.weight };
    item_id = row.item_id;
    shipment_id = row.shipment_id;
  }

  item_of_row-IsValid :
      (row : ItemRow F) → IsValid row → item_of_row env row ≡ returns (item_at row)
  unfolding item_of_row quantity weight
  item_of_row-IsValid row v =
      rw (v.positive, item_of_row, quantity) (rw (v.not_negative, weight) refl)

  get_item-IsValid :
      (k : ℕ) (s : ItemDb F) (row : ItemRow F)
      → row_at k s ≡ some row
      → IsValid row
      → get_item env k s ≡ (returns (some (item_at row)), s)
  unfolding get_item
  get_item-IsValid k s row found v = rw (found, get_item) (rw (item_of_row-IsValid row v) refl)

  -- An amount that is at least the quantity of an item which the service can read:
  -- decrease_quantity refuses it, with QuantityError where it is equal and with ValueError where it
  -- is larger, and changes nothing.
  pub decrease_quantity-refuses :
      (k n : ℕ) (s : ItemDb F) (row : ItemRow F)
      → row_at k s ≡ some row
      → IsValid row
      → row.quantity ≤ n
      → decrease_quantity env k (pos n) s
        ≡ (raises (if row.quantity == n then quantity_error else value_error), s)
  unfolding decrease_quantity lowered quantity
  decrease_quantity-refuses k n s row found v large = elim (Bool-cases (row.quantity == n)) [
    | inl e ↦
        rw (get_item-IsValid k s row found v)
          (rw (minus-equal row.quantity n e, lowered) (rw e refl))
    | inr e ↦
        rw (get_item-IsValid k s row found v)
          (rw (minus-less row.quantity n large e, lowered) (rw e refl))
  ]

  abbrev pub with_quantity : ℕ → ItemRow F → ItemRow F
  with_quantity m row = record row { quantity = m }

  -- the state after the quantity of an item was saved
  abbrev saved : ℕ → ItemRow F → ItemDb F → ItemDb F
  saved m row s = record s { items = upsert item_key merge_item (with_quantity m row) s.items }

  row_at-saved :
      (m j : ℕ) (row : ItemRow F) (s : ItemDb F)
      → row_at row.item_id s ≡ some row
      → row_at j (saved m row s)
        ≡ (if row.item_id == j then some (with_quantity m row) else row_at j s)
  row_at-saved m j row s found =
      rw (find-upsert item_key merge_item (λ old new. refl) j (with_quantity m row) s.items)
        (rw (found, stored) refl)

  IsValid-with_quantity :
      (m : ℕ) (row : ItemRow F) → IsValid row → ltb m 1 ≡ false → IsValid (with_quantity m row)
  IsValid-with_quantity m row v positive = record {
    positive = positive;
    not_negative = v.not_negative;
    fits = v.fits;
  }

  row_of_item-with_quantity :
      (m : ℕ) (row : ItemRow F)
      → IsValid row
      → row_of_item env (record (item_at row) { quantity = record { value = m } })
        ≡ with_quantity m row
  row_of_item-with_quantity m row v = ap (λ w. record (with_quantity m row) { weight = w }) v.fits

  stored-with_quantity :
      (m : ℕ) (row : ItemRow F) (s : ItemDb F)
      → row_at row.item_id s ≡ some row
      → stored item_key merge_item (with_quantity m row) s.items ≡ with_quantity m row
  stored-with_quantity m row s found = rw (found, stored) refl

  -- Writing back what is there changes nothing.
  same_row :
      (q j : ℕ) (s : ItemDb F) (row : ItemRow F)
      → row_at row.item_id s ≡ some row
      → (if row.item_id == j
          then some row
          else if row.item_id == j
          then some (with_quantity q row)
          else row_at j s)
        ≡ row_at j s
  same_row q j s row found = elim (Bool-cases (row.item_id == j)) [
    | inr other ↦ rw other refl
    | inl here ↦ rw here (sym found ∙ ap (λ i. row_at i s) (==_sound row.item_id j here))
  ]

  -- the database takes the row with a quantity
  abbrev pub Takes : ℕ → ItemRow F → Type 0
  Takes m row = env.violation row.shipment_id m row.weight ≡ none

  save_item-IsValid :
      (m : ℕ) (row : ItemRow F) (s : ItemDb F)
      → row_at row.item_id s ≡ some row
      → IsValid row
      → ltb m 1 ≡ false
      → Takes m row
      → save_item env (record (item_at row) { quantity = record { value = m } }) s
        ≡ (returns (item_at (with_quantity m row)), saved m row s)
  unfolding save_item upsert_row
  save_item-IsValid m row s found v positive takes =
      ap (λ r. upsert_row env r s) (row_of_item-with_quantity m row v)
      ∙ rw (takes, upsert_row)
          (rw (stored-with_quantity m row s found) (
            rw (item_of_row-IsValid (with_quantity m row) (IsValid-with_quantity m row v positive))
              refl))

  increase_quantity_lem :
      (n : ℕ) (s : ItemDb F) (row : ItemRow F)
      → row_at row.item_id s ≡ some row
      → IsValid row
      → Takes (row.quantity + n) row
      → increase_quantity env row.item_id (pos n) s
        ≡ (returns (item_at (with_quantity (row.quantity + n) row)), saved (row.quantity + n) row s)
  unfolding increase_quantity ◌+ℤ◌ quantity
  increase_quantity_lem n s row found v takes =
      let positive = positive-plus row.quantity n v.positive in
      rw (get_item-IsValid row.item_id s row found v) (
        rw (positive, quantity) (save_item-IsValid (row.quantity + n) row s found v positive takes))

  decrease_quantity_lem :
      (n m : ℕ) (s : ItemDb F) (row : ItemRow F)
      → row_at row.item_id s ≡ some row
      → IsValid row
      → (row.quantity -ℤ pos n) ≡ pos m
      → ltb m 1 ≡ false
      → Takes m row
      → decrease_quantity env row.item_id (pos n) s
        ≡ (returns (item_at (with_quantity m row)), saved m row s)
  unfolding decrease_quantity lowered quantity
  decrease_quantity_lem n m s row found v left positive takes =
      rw (get_item-IsValid row.item_id s row found v) (
        rw (left, lowered)
          (rw (positive, quantity) (save_item-IsValid m row s found v positive takes)))

  -- Where the database takes the item's row with the sum, and with the quantity that it has:
  -- increasing the quantity of an item which the service can read returns the item with the sum,
  -- and decreasing it then by the same amount returns the item as it was and leaves every row of
  -- the table as it was.
  pub decrease_quantity-increase_quantity :
      (n : ℕ) (s : ItemDb F) (row : ItemRow F)
      → row_at row.item_id s ≡ some row
      → IsValid row
      → Takes (row.quantity + n) row
      → Takes row.quantity row
      → let (larger, s₁) = increase_quantity env row.item_id (pos n) s in
        let (back, s₂) = decrease_quantity env row.item_id (pos n) s₁ in
        (larger ≡ returns (record (item_at row) { quantity = record { value = row.quantity + n } }))
        × (back ≡ returns (item_at row))
        × ((j : ℕ) → row_at j s₂ ≡ row_at j s)
  decrease_quantity-increase_quantity n s row found v takes_sum takes =
      let q = row.quantity + n in
      let row₁ : ItemRow F = with_quantity q row in
      let s₁ : ItemDb F = saved q row s in
      let found₁ : row_at row.item_id s₁ ≡ some row₁ =
        row_at-saved q row.item_id row s found ∙ rw (==_refl row.item_id) refl in
      let v₁ = IsValid-with_quantity q row v (positive-plus row.quantity n v.positive) in
      rw (increase_quantity_lem n s row found v takes_sum) (
        rw
          (decrease_quantity_lem n row.quantity s₁ row₁ found₁ v₁ (minus-plus row.quantity n)
            v.positive takes)
          (
            refl,
            refl,
            λ j.
                row_at-saved row.quantity j row₁ s₁ found₁
                ∙ (rw (row_at-saved q j row s found) (same_row q j s row found)),
          ))
