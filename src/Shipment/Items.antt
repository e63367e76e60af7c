-- ===== src/Shipment/Items.antt =====
-- services/shipment_service: items, their quantity and weight, and the Postgres repository of items
-- (src/domain/entities/item.py, src/domain/value_objects, src/infra/db/item_repository.py).
use supply_chain_tracker.Prelude.{
  ℤ, pos, negsuc, ℕ, suc, String, Bool, Option, none, some, List, [], ◌∷◌, ◌==◌, ltb, if◌then◌else◌,
  filter, ◌+◌, ◌-◌,
}
use supply_chain_tracker.Outcome.{
  Error, Outcome, returns, raises, quantity_error, weight_error, item_not_found,
}
use supply_chain_tracker.Exec.{Exec, pure, lift, ◌>>=◌}
use supply_chain_tracker.Table.{Table, find, upsert, delete_where, stored, order_by}

infixl 20 ◌+ℤ◌ ◌-ℤ◌
-- `a + n` for a quantity `a`
unfoldable pub ◌+ℤ◌ : ℕ → ℤ → ℤ
a +ℤ pos n = pos (a + n)
a +ℤ negsuc n = if ltb n a then pos (a - suc n) else negsuc (n - a)

-- `a - n` for a quantity `a`
unfoldable pub ◌-ℤ◌ : ℕ → ℤ → ℤ
a -ℤ pos n = if ltb a n then negsuc (n - suc a) else pos (a - n)
a -ℤ negsuc n = pos (a + suc n)

pub record Quantity : Type 0 where
  pub value : ℕ

-- `Quantity(n)`: `__post_init__` refuses what is less than 1
unfoldable pub quantity : ℤ → Outcome Quantity
quantity (pos n) = if ltb n 1 then raises quantity_error else returns (record { value = n })
quantity (negsuc n) = raises quantity_error

-- Floating-point weights, and what the column DECIMAL(10, 2) makes of one: a parameter. `violation`
-- is the exception that a row of a shipment, a quantity and a weight raises, if any: of the foreign
-- key and the CHECKs of the table, and of the driver for a number beyond its column. `rank` is the
-- rank of a name in the collation.
pub record Setup (F : Type 0) : Type 0 where
  pub is_negative : F → Bool
  pub zero_weight : F
  pub plus : F → F → F
  pub times : F → ℕ → F
  pub to_column : F → F
  pub violation : ℕ → ℕ → F → Option Error
  pub rank : String → ℕ

pub record Weight (F : Type 0) : Type 0 where
  pub value : F

-- `Weight(x)`
unfoldable pub weight : {F : Type 0} → Setup F → F → Outcome (Weight F)
weight env x = if env.is_negative x then raises weight_error else returns (record { value = x })

pub record Item (F : Type 0) : Type 0 where
  pub name : String
  pub quantity : Quantity
  pub weight : Weight F
  pub item_id : ℕ
  pub shipment_id : ℕ

pub record ItemRow (F : Type 0) : Type 0 where
  pub item_id : ℕ
  pub shipment_id : ℕ
  pub name : String
  pub quantity : ℕ
  pub weight : F

pub record ItemDb (F : Type 0) : Type 0 where
  pub items : Table (ItemRow F)

abbrev pub item_key : {F : Type 0} → ItemRow F → ℕ
item_key row = row.item_id

-- DO UPDATE SET leaves item_id
abbrev pub merge_item : {F : Type 0} → ItemRow F → ItemRow F → ItemRow F
merge_item old new = record new { item_id = old.item_id }

module _ {F : Type 0} (env : Setup F) where
  -- `_row_to_entity`
  unfoldable pub item_of_row : ItemRow F → Outcome (Item F)
  item_of_row row = elim (quantity (pos row.quantity)) [
    | raises e ↦ raises e
    | returns q ↦ elim (weight env row.weight) [
      | raises e ↦ raises e
      | returns w ↦ returns (record {
        name = row.name;
        quantity = q;
        weight = w;
        item_id = row.item_id;
        shipment_id = row.shipment_id;
      })
    ]
  ]

  abbrev pub row_of_item : Item F → ItemRow F
  row_of_item item = record {
    item_id = item.item_id;
    shipment_id = item.shipment_id;
    name = item.name;
    quantity = item.quantity.value;
    weight = env.to_column item.weight.value;
  }

  -- the statement of `save`, and the entity of the row that it returns
  unfoldable pub upsert_row : ItemRow F → Exec (ItemDb F) (Item F)
  upsert_row row s = elim (env.violation row.shipment_id row.quantity row.weight) [
    | some e ↦ (raises e, s)
    | none ↦ (
      item_of_row (stored item_key merge_item row s.items),
      record s { items = upsert item_key merge_item row s.items },
    )
  ]

  unfoldable pub save_item : Item F → Exec (ItemDb F) (Item F)
  save_item item = upsert_row (row_of_item item)

  unfoldable pub get_item : ℕ → Exec (ItemDb F) (Option (Item F))
  get_item item_id s = elim (find item_key item_id s.items) [
    | none ↦ (returns none, s)
    | some row ↦ (do item ← lift (item_of_row row); pure (some item)) s
  ]

  unfoldable pub items_of_rows : List (ItemRow F) → Outcome (List (Item F))
  items_of_rows [] = returns []
  items_of_rows (row ∷ rows) = elim (item_of_row row) [
    | raises e ↦ raises e
    | returns item ↦ elim (items_of_rows rows) [
      | raises e ↦ raises e
      | returns items ↦ returns (item ∷ items)
    ]
  ]

  unfoldable pub get_by_shipment : ℕ → Exec (ItemDb F) (List (Item F))
  get_by_shipment shipment_id s = (
    items_of_rows (
        order_by (λ row. env.rank row.name)
          (filter (λ row. row.shipment_id == shipment_id) s.items)),
    s,
  )

  unfoldable pub get_all_items : Exec (ItemDb F) (List (Item F))
  get_all_items s = (items_of_rows (order_by (λ row. env.rank row.name) s.items), s)

-- the result of DELETE is "DELETE 0" where no row has the key
unfoldable pub delete_item : {F : Type 0} → ℕ → Exec (ItemDb F) (Unit {0})
delete_item item_id s = elim (find item_key item_id s.items) [
  | none ↦ (raises item_not_found, s)
  | some row ↦ (returns tt, record s { items = delete_where item_key item_id s.items })
]
