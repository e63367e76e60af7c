-- ===== src/Delivery/Service.antt =====
-- services/delivery_service/src/app/services: DeliveryService and CourierService
use supply_chain_tracker.Prelude.{ℕ, Option, List, not, ◌||◌, if◌then◌else◌}
use supply_chain_tracker.Outcome.{delivery_not_found, courier_not_found, status_transition}
use supply_chain_tracker.Exec.{Exec, raise, or_raise, ◌>>=◌, ◌>>◌}
use supply_chain_tracker.Delivery.Entity.{
  in_transit, confirmed, is_delivered, is_confirmed, ContactInfo, Courier, Delivery, update_contact,
  update_status, mark_delivered,
}
use supply_chain_tracker.Delivery.Repository.{
  Fleet, Setup, now, save_courier, get_courier, get_all_couriers, save_delivery, get_delivery,
  get_by_status, get_all_deliveries,
}
use supply_chain_tracker.Delivery.Repository

module _ (env : Setup) where
  -- `DeliveryService`
  unfoldable pub create : Delivery → Exec Fleet Delivery
  create delivery = save_delivery env delivery

  unfoldable pub get : ℕ → Exec Fleet (Option Delivery)
  get delivery_id = get_delivery env delivery_id

  unfoldable pub update : Delivery → Exec Fleet Delivery
  update delivery = do
    existing ← get_delivery env delivery.delivery_id
    or_raise existing delivery_not_found
    save_delivery env delivery

  unfoldable pub delete : ℕ → Exec Fleet (Unit {0})
  delete delivery_id = do
    existing ← get_delivery env delivery_id
    or_raise existing delivery_not_found
    Repository.delete_delivery delivery_id

  unfoldable pub get_all_shipments : ℕ → ℕ → Exec Fleet (List Delivery)
  get_all_shipments limit offset = get_all_deliveries env limit offset

  unfoldable pub get_by_shipment : ℕ → Exec Fleet (List Delivery)
  get_by_shipment shipment_id = Repository.get_by_shipment env shipment_id

  unfoldable pub get_active_shipments : Exec Fleet (List Delivery)
  get_active_shipments = get_by_status env in_transit

  unfoldable pub get_in_transit_shipments : Exec Fleet (List Delivery)
  get_in_transit_shipments = get_by_status env in_transit

  -- `_get_or_raise`
  unfoldable pub get_or_raise : ℕ → Exec Fleet Delivery
  get_or_raise delivery_id = do
    delivery ← get_delivery env delivery_id
    or_raise delivery delivery_not_found

  unfoldable pub mark_as_received : ℕ → Exec Fleet Delivery
  mark_as_received delivery_id = do
    delivery ← get_or_raise delivery_id
    if is_delivered delivery.status then raise status_transition else save_delivery env delivery

  unfoldable pub mark_as_ready_for_delivery : ℕ → Exec Fleet Delivery
  mark_as_ready_for_delivery delivery_id = do
    delivery ← get_or_raise delivery_id
    save_delivery env delivery

  unfoldable pub mark_as_in_transit : ℕ → Exec Fleet Delivery
  mark_as_in_transit delivery_id = do
    delivery ← get_or_raise delivery_id
    if is_delivered delivery.status
        then raise status_transition
        else do t ← now; save_delivery env (update_status t in_transit delivery)

  unfoldable pub mark_as_delivered : ℕ → ℕ → Exec Fleet Delivery
  mark_as_delivered delivery_id arrival_date = do
    delivery ← get_or_raise delivery_id
    t ← now
    save_delivery env (mark_delivered t arrival_date delivery)

  unfoldable pub mark_as_completed : ℕ → Exec Fleet Delivery
  mark_as_completed delivery_id = do
    delivery ← get_or_raise delivery_id
    if not (is_delivered delivery.status)
        then raise status_transition
        else do t ← now; save_delivery env (update_status t confirmed delivery)

  unfoldable pub reassign_courier : ℕ → Courier → Exec Fleet Delivery
  reassign_courier delivery_id new_courier = do
    delivery ← get_or_raise delivery_id
    if is_delivered delivery.status || is_confirmed delivery.status
        then raise status_transition
        else do
          t ← now
          save_delivery env (record delivery { courier = new_courier; updated_at = t })

  -- `CourierService`
  unfoldable pub find_courier : ℕ → Exec Fleet (Option Courier)
  find_courier courier_id = get_courier env courier_id

  unfoldable pub create_courier : Courier → Exec Fleet Courier
  create_courier courier = save_courier env courier

  unfoldable pub update_courier : Courier → Exec Fleet Courier
  update_courier courier = do
    existing ← get_courier env courier.courier_id
    or_raise existing courier_not_found
    save_courier env courier

  unfoldable pub delete_courier : ℕ → Exec Fleet (Unit {0})
  delete_courier courier_id = do
    existing ← get_courier env courier_id
    or_raise existing courier_not_found
    Repository.delete_courier courier_id

  unfoldable pub get_all : ℕ → ℕ → Exec Fleet (List Courier)
  get_all limit offset = get_all_couriers env limit offset

  unfoldable pub update_contact_info : ℕ → ContactInfo → Exec Fleet Courier
  update_contact_info courier_id new_contact_info = do
    found ← get_courier env courier_id
    courier ← or_raise found courier_not_found
    save_courier env (update_contact new_contact_info courier)
