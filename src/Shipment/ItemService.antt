-- ===== src/Shipment/ItemService.antt =====
-- services/shipment_service/src/app/services/item.py: ItemService over the Postgres repository
use supply_chain_tracker.Prelude.{ℤ, pos, negsuc, Option, ℕ, List, [], ◌∷◌, length}
use supply_chain_tracker.Outcome.{Outcome, raises, item_not_found, value_error}
use supply_chain_tracker.Exec.{Exec, pure, lift, or_raise, ◌>>=◌, ◌>>◌}
use supply_chain_tracker.Shipment.Items.{
  ◌+ℤ◌, ◌-ℤ◌, Quantity, quantity, weight, Setup, Item, ItemDb, save_item, get_item, get_by_shipment,
  get_all_items, delete_item,
}

-- a negative result is a ValueError, before `Quantity` sees it
unfoldable pub lowered : ℤ → Outcome Quantity
lowered (negsuc n) = raises value_error
lowered (pos n) = quantity (pos n)

module _ {F : Type 0} (env : Setup F) where
  unfoldable pub create : Item F → Exec (ItemDb F) (Item F)
  create item = save_item env item

  unfoldable pub get : ℕ → Exec (ItemDb F) (Option (Item F))
  get item_id = get_item env item_id

  unfoldable pub get_all : Exec (ItemDb F) (List (Item F))
  get_all = get_all_items env

  unfoldable pub update : Item F → Exec (ItemDb F) (Item F)
  update item = do
    existing ← get_item env item.item_id
    or_raise existing item_not_found
    save_item env item

  unfoldable pub increase_quantity : ℕ → ℤ → Exec (ItemDb F) (Item F)
  increase_quantity item_id amount = do
    found ← get_item env item_id
    item ← or_raise found item_not_found
    new_quantity ← lift (quantity (item.quantity.value +ℤ amount))
    save_item env (record item { quantity = new_quantity })

  unfoldable pub decrease_quantity : ℕ → ℤ → Exec (ItemDb F) (Item F)
  decrease_quantity item_id amount = do
    found ← get_item env item_id
    item ← or_raise found item_not_found
    new_quantity ← lift (lowered (item.quantity.value -ℤ amount))
    save_item env (record item { quantity = new_quantity })

  unfoldable pub update_weight : ℕ → F → Exec (ItemDb F) (Item F)
  update_weight item_id new_weight = do
    found ← get_item env item_id
    item ← or_raise found item_not_found
    w ← lift (weight env new_weight)
    save_item env (record item { weight = w })

  -- `sum(...)`, from 0 on the left
  abbrev pub sum_from : F → List (Item F) → F
  sum_from total [] = total
  sum_from total (item ∷ items) =
      sum_from (env.plus total (env.times item.weight.value item.quantity.value)) items

  unfoldable pub calculate_total_weight : ℕ → Exec (ItemDb F) F
  calculate_total_weight shipment_id = do
    items ← get_by_shipment env shipment_id
    pure (sum_from env.zero_weight items)

  unfoldable pub get_items_count : ℕ → Exec (ItemDb F) ℕ
  get_items_count shipment_id = do items ← get_by_shipment env shipment_id; pure (length items)

unfoldable pub delete : {F : Type 0} → ℕ → Exec (ItemDb F) (Unit {0})
delete item_id = delete_item item_id
