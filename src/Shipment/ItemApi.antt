-- ===== src/Shipment/ItemApi.antt =====
-- services/shipment_service/src/api: the DTOs, ItemMapper and the handlers of items.
use supply_chain_tracker.Prelude.{ℕ, suc, ℤ, String, Option, none, some, List, map}
use supply_chain_tracker.Outcome.{Outcome, returns, item_not_found}
use supply_chain_tracker.Exec.{Exec, pure, lift, or_raise, ◌>>=◌, ◌>>◌}
use supply_chain_tracker.Messaging.Codec.{Codec}
use supply_chain_tracker.Messaging.Base.{Event}
use supply_chain_tracker.Messaging.Events.{DomainEvent, shipment_updated}
use supply_chain_tracker.Messaging.Publish.{announced}
use supply_chain_tracker.Shipment.Items.{
  Quantity, quantity, Weight, weight, Setup, Item, ItemDb, get_by_shipment,
}
use supply_chain_tracker.Shipment.ItemService

-- The process that serves the items: its database, its clock and the draws of `uuid4` to come.
pub record Desk (F : Type 0) : Type 0 where
  pub db : ItemDb F
  pub clock : ℕ → ℕ
  pub ticks : ℕ
  pub uuids : ℕ → ℕ
  pub drawn : ℕ

abbrev pub now : {F : Type 0} → Exec (Desk F) ℕ
now s = (returns (s.clock s.ticks), record s { ticks = suc s.ticks })

abbrev pub uuid4 : {F : Type 0} → Exec (Desk F) ℕ
uuid4 s = (returns (s.uuids s.drawn), record s { drawn = suc s.drawn })

-- a call of the service
abbrev pub on_db : {F A : Type 0} → Exec (ItemDb F) A → Exec (Desk F) A
on_db m s = let (r, db) = m s.db in (r, record s { db = db })

pub record ItemCreateDto (F : Type 0) : Type 0 where
  pub name : String
  pub quantity : ℤ
  pub weight : F

pub record ItemDto (F : Type 0) : Type 0 where
  pub item_id : ℕ
  pub shipment_id : ℕ
  pub name : String
  pub quantity : ℕ
  pub weight : F

pub record ItemUpdateDto (F : Type 0) : Type 0 where
  pub name : Option String
  pub quantity : Option ℤ
  pub weight : Option F

-- `ItemMapper.entity_to_dto`
abbrev pub entity_to_dto : {F : Type 0} → Item F → ItemDto F
entity_to_dto entity = record {
  item_id = entity.item_id;
  shipment_id = entity.shipment_id;
  name = entity.name;
  quantity = entity.quantity.value;
  weight = entity.weight.value;
}

-- ShipmentUpdated of the shipment whose items changed
unfoldable pub items_event : {F : Type 0} → ℕ → Exec (Desk F) DomainEvent
items_event shipment_id = do
  updated_at ← now
  pure (
      shipment_updated
        (record { shipment_id = shipment_id; status = "items_updated"; updated_at = updated_at }))

abbrev pub or_old {ℓ} : {A : Type ℓ} → Option A → A → A
or_old none old = old
or_old (some new) old = new

-- `Quantity(dto.quantity)` and `Weight(dto.weight)` where the body has one
unfoldable pub new_quantity : Option ℤ → Quantity → Outcome Quantity
new_quantity none old = returns old
new_quantity (some n) old = quantity n

module _ {F : Type 0} (env : Setup F) where
  unfoldable pub new_weight : Option F → Weight F → Outcome (Weight F)
  new_weight none old = returns old
  new_weight (some x) old = weight env x

  -- `ItemMapper.create_dto_to_entity`; only the identifier is drawn, since the shipment's is given
  unfoldable pub create_dto_to_entity : ItemCreateDto F → ℕ → Exec (Desk F) (Item F)
  create_dto_to_entity dto shipment_id = do
    q ← lift (quantity dto.quantity)
    w ← lift (weight env dto.weight)
    id ← uuid4
    pure (record {
      name = dto.name;
      quantity = q;
      weight = w;
      item_id = id;
      shipment_id = shipment_id;
    })

  -- `ItemMapper.update_entity_from_dto`
  unfoldable pub update_entity_from_dto : Item F → ItemUpdateDto F → Exec (Desk F) (Item F)
  update_entity_from_dto entity dto = do
    q ← lift (new_quantity dto.quantity entity.quantity)
    w ← lift (new_weight dto.weight entity.weight)
    pure (record entity { name = or_old dto.name entity.name; quantity = q; weight = w })

  -- The changes that the handlers make before they publish.
  unfoldable pub created_item : ℕ → ItemCreateDto F → Exec (Desk F) (Item F)
  created_item shipment_id dto = do
    entity ← create_dto_to_entity dto shipment_id
    on_db (ItemService.create env entity)

  unfoldable pub updated_item : ℕ → ItemUpdateDto F → Exec (Desk F) (Item F)
  updated_item item_id dto = do
    found ← on_db (ItemService.get env item_id)
    item ← or_raise found item_not_found
    updated_entity ← update_entity_from_dto item dto
    on_db (ItemService.update env updated_entity)

  -- the shipment of the deleted item
  unfoldable pub deleted_item : ℕ → Exec (Desk F) ℕ
  deleted_item item_id = do
    found ← on_db (ItemService.get env item_id)
    item ← or_raise found item_not_found
    on_db (ItemService.delete item_id)
    pure item.shipment_id

  unfoldable pub list_shipment_items : ℕ → Exec (Desk F) (List (ItemDto F))
  list_shipment_items shipment_id = do
    items ← on_db (get_by_shipment env shipment_id)
    pure (map entity_to_dto items)

  unfoldable pub get_item : ℕ → Exec (Desk F) (ItemDto F)
  get_item item_id = do
    found ← on_db (ItemService.get env item_id)
    item ← or_raise found item_not_found
    pure (entity_to_dto item)

  -- the shipment's identifier as a text, and the total
  unfoldable pub get_shipment_total_weight : Codec → ℕ → Exec (Desk F) (String × F)
  get_shipment_total_weight c shipment_id = do
    total_weight ← on_db (ItemService.calculate_total_weight env shipment_id)
    pure (c.show_uuid shipment_id, total_weight)

  unfoldable pub get_shipment_items_count : Codec → ℕ → Exec (Desk F) (String × ℕ)
  get_shipment_items_count c shipment_id = do
    count ← on_db (ItemService.get_items_count env shipment_id)
    pure (c.show_uuid shipment_id, count)

module _ {F : Type 0} (env : Setup F) (c : Codec)
    (publish : Event → String → Outcome (Unit {0})) where
  -- a change of an item, and the event of its shipment
  unfoldable pub announced_item : Exec (Desk F) (Item F) → Exec (Desk F) (ItemDto F)
  announced_item change =
      announced uuid4 now c publish "shipment-events" change (λ item. items_event item.shipment_id)
        entity_to_dto

  unfoldable pub create_item : ℕ → ItemCreateDto F → Exec (Desk F) (ItemDto F)
  create_item shipment_id dto =
      announced uuid4 now c publish "shipment-events" (created_item env shipment_id dto)
        (λ item. items_event shipment_id) entity_to_dto

  unfoldable pub update_item : ℕ → ItemUpdateDto F → Exec (Desk F) (ItemDto F)
  update_item item_id dto = announced_item (updated_item env item_id dto)

  unfoldable pub delete_item : ℕ → Exec (Desk F) (Unit {0})
  delete_item item_id =
      announced uuid4 now c publish "shipment-events" (deleted_item env item_id)
        (λ shipment_id. items_event shipment_id) (λ shipment_id. tt)

  unfoldable pub increase_item_quantity : ℕ → ℤ → Exec (Desk F) (ItemDto F)
  increase_item_quantity item_id amount =
      announced_item (on_db (ItemService.increase_quantity env item_id amount))

  unfoldable pub decrease_item_quantity : ℕ → ℤ → Exec (Desk F) (ItemDto F)
  decrease_item_quantity item_id amount =
      announced_item (on_db (ItemService.decrease_quantity env item_id amount))

  unfoldable pub update_item_weight : ℕ → F → Exec (Desk F) (ItemDto F)
  update_item_weight item_id new_weight =
      announced_item (on_db (ItemService.update_weight env item_id new_weight))
