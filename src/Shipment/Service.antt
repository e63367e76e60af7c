-- ===== src/Shipment/Service.antt =====
-- services/shipment_service/src/app/services/shipment.py: ShipmentService, over its port
use supply_chain_tracker.Prelude.{Option, ℕ, Bool, false, not, ◌||◌, List, [], ◌∷◌, filter}
use supply_chain_tracker.Outcome.{shipment_not_found}
use supply_chain_tracker.Exec.{Exec, pure, or_raise, ◌>>=◌, ◌>>◌}
use supply_chain_tracker.Shipment.Entity
use supply_chain_tracker.Shipment.Entity.{
  ShipmentStatus, created, received, ready_for_delivery, in_transit, delivered, completed,
  same_status, Shipment, mark_delivered,
}
use supply_chain_tracker.Shipment.Port.{Port}

-- `status in statuses`
abbrev pub in_statuses : ShipmentStatus → List ShipmentStatus → Bool
in_statuses s [] = false
in_statuses s (x ∷ xs) = same_status x s || in_statuses s xs

-- `valid_transitions` of `can_transition_to`
abbrev pub valid_transitions : ShipmentStatus → List ShipmentStatus
valid_transitions created = received ∷ []
valid_transitions received = ready_for_delivery ∷ []
valid_transitions ready_for_delivery = in_transit ∷ []
valid_transitions in_transit = delivered ∷ []
valid_transitions delivered = completed ∷ []
valid_transitions completed = []

-- the parts of the dictionary of `get_shipment_lifecycle` that are not fields of the shipment
pub record Lifecycle : Type 0 where
  pub shipment : Shipment
  pub is_completed : Bool
  pub is_in_progress : Bool

module _ {S : Type 0} (port : Port S) where
  unfoldable pub create : Shipment → Exec S Shipment
  create shipment = port.save shipment

  unfoldable pub get : ℕ → Exec S (Option Shipment)
  get shipment_id = port.get shipment_id

  unfoldable pub get_all : ℕ → ℕ → Exec S (List Shipment)
  get_all limit offset = port.get_all limit offset

  unfoldable pub update : Shipment → Exec S Shipment
  update shipment = do
    existing ← port.get shipment.shipment_id
    or_raise existing shipment_not_found
    port.save shipment

  unfoldable pub delete : ℕ → Exec S (Unit {0})
  delete shipment_id = port.delete shipment_id

  unfoldable pub update_status : ℕ → ShipmentStatus → Exec S Shipment
  update_status shipment_id new_status = do
    found ← port.get shipment_id
    shipment ← or_raise found shipment_not_found
    t ← port.now
    port.save (Entity.update_status t new_status shipment)

  unfoldable pub mark_as_received : ℕ → Exec S Shipment
  mark_as_received shipment_id = update_status shipment_id received

  unfoldable pub mark_as_ready_for_delivery : ℕ → Exec S Shipment
  mark_as_ready_for_delivery shipment_id = update_status shipment_id ready_for_delivery

  unfoldable pub mark_as_in_transit : ℕ → Exec S Shipment
  mark_as_in_transit shipment_id = update_status shipment_id in_transit

  unfoldable pub mark_as_delivered : ℕ → ℕ → Exec S Shipment
  mark_as_delivered shipment_id arrival_date = do
    found ← port.get shipment_id
    shipment ← or_raise found shipment_not_found
    t ← port.now
    port.save (mark_delivered t arrival_date shipment)

  unfoldable pub mark_as_completed : ℕ → Exec S Shipment
  mark_as_completed shipment_id = update_status shipment_id completed

  -- `get_all()` with its defaults, a limit of 50 and an offset of 0
  unfoldable pub get_by_status : ShipmentStatus → Exec S (List Shipment)
  get_by_status status = do
    all_shipments ← port.get_all 50 0
    pure (filter (λ s. same_status s.status status) all_shipments)

  unfoldable pub get_created_shipments : Exec S (List Shipment)
  get_created_shipments = get_by_status created

  unfoldable pub get_received_shipments : Exec S (List Shipment)
  get_received_shipments = get_by_status received

  unfoldable pub get_ready_for_delivery_shipments : Exec S (List Shipment)
  get_ready_for_delivery_shipments = get_by_status ready_for_delivery

  unfoldable pub get_in_transit_shipments : Exec S (List Shipment)
  get_in_transit_shipments = get_by_status in_transit

  unfoldable pub get_delivered_shipments : Exec S (List Shipment)
  get_delivered_shipments = get_by_status delivered

  unfoldable pub get_completed_shipments : Exec S (List Shipment)
  get_completed_shipments = get_by_status completed

  unfoldable pub get_active_shipments : Exec S (List Shipment)
  get_active_shipments = do
    all_shipments ← port.get_all 50 0
    pure (filter (λ s. not (same_status s.status completed)) all_shipments)

  unfoldable pub get_pending_shipments : Exec S (List Shipment)
  get_pending_shipments = do
    all_shipments ← port.get_all 50 0
    pure (filter (λ s. in_statuses s.status (created ∷ received ∷ [])) all_shipments)

  unfoldable pub can_transition_to : ℕ → ShipmentStatus → Exec S Bool
  can_transition_to shipment_id target_status = do
    found ← port.get shipment_id
    shipment ← or_raise found shipment_not_found
    pure (in_statuses target_status (valid_transitions shipment.status))

  unfoldable pub get_shipment_lifecycle : ℕ → Exec S Lifecycle
  get_shipment_lifecycle shipment_id = do
    found ← port.get shipment_id
    shipment ← or_raise found shipment_not_found
    pure (record {
      shipment = shipment;
      is_completed = same_status shipment.status completed;
      is_in_progress = in_statuses shipment.status (ready_for_delivery ∷ in_transit ∷ []);
    })
