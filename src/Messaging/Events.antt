-- ===== src/Messaging/Events.antt =====
-- libs/libs/messaging/events.py: the domain events.
use supply_chain_tracker.Prelude.{ℕ, ℤ, String, Option}
use supply_chain_tracker.Messaging.Value.{Items}

pub record ShipmentCreated : Type 0 where
  pub shipment_id : ℕ
  pub origin : String
  pub destination : String
  pub items : Items

pub record ShipmentUpdated : Type 0 where
  pub shipment_id : ℕ
  pub status : String
  pub updated_at : ℕ

pub record ShipmentCancelled : Type 0 where
  pub shipment_id : ℕ
  pub reason : String
  pub cancelled_at : ℕ

pub record ShipmentDispatched : Type 0 where
  pub shipment_id : ℕ
  pub warehouse_id : ℕ
  pub dispatched_at : ℕ

pub record InventoryReserved : Type 0 where
  pub warehouse_id : ℕ
  pub shipment_id : ℕ
  pub items : Items
  pub reserved_at : ℕ

pub record InventoryReleased : Type 0 where
  pub warehouse_id : ℕ
  pub shipment_id : ℕ
  pub items : Items
  pub released_at : ℕ
  pub reason : String

pub record InventoryInsufficient : Type 0 where
  pub warehouse_id : ℕ
  pub shipment_id : ℕ
  pub missing_items : Items

pub record InventoryUpdated : Type 0 where
  pub warehouse_id : ℕ
  pub item_id : String
  pub new_quantity : ℤ
  pub updated_at : ℕ

pub record CourierAssigned : Type 0 where
  pub delivery_id : ℕ
  pub courier_id : ℕ
  pub shipment_id : ℕ
  pub estimated_delivery : ℕ
  pub assigned_at : ℕ

pub record CourierUnassigned : Type 0 where
  pub delivery_id : ℕ
  pub courier_id : ℕ
  pub reason : String
  pub unassigned_at : ℕ

pub record DeliveryStarted : Type 0 where
  pub delivery_id : ℕ
  pub courier_id : ℕ
  pub pickup_location : String
  pub started_at : ℕ

pub record DeliveryInTransit : Type 0 where
  pub delivery_id : ℕ
  pub current_location : String
  pub latitude : Option ℕ
  pub longitude : Option ℕ
  pub updated_at : Option ℕ

pub record DeliveryCompleted : Type 0 where
  pub delivery_id : ℕ
  pub delivered_at : ℕ
  pub recipient_name : Option String
  pub recipient_signature : Option String

pub record DeliveryFailed : Type 0 where
  pub delivery_id : ℕ
  pub reason : String
  pub failed_at : ℕ
  pub retry_scheduled : Option ℕ

pub record BlockchainRecorded : Type 0 where
  pub record_id : ℕ
  pub shipment_id : ℕ
  pub transaction_hash : String
  pub block_number : Option ℤ
  pub recorded_at : Option ℕ

pub record BlockchainVerified : Type 0 where
  pub record_id : ℕ
  pub shipment_id : ℕ
  pub transaction_hash : String
  pub verified_at : ℕ
  pub confirmations : ℤ

pub record SagaStarted : Type 0 where
  pub saga_id : ℕ
  pub saga_type : String
  pub initiated_by : String
  pub started_at : ℕ

pub record SagaCompleted : Type 0 where
  pub saga_id : ℕ
  pub saga_type : String
  pub completed_at : ℕ

pub record SagaFailed : Type 0 where
  pub saga_id : ℕ
  pub saga_type : String
  pub error_message : String
  pub failed_at : ℕ

pub record SagaCompensating : Type 0 where
  pub saga_id : ℕ
  pub saga_type : String
  pub failed_step : String
  pub compensating_at : ℕ

-- An instance of one of the classes. The constructor is the class that `type(domain_event)` gives.
pub data DomainEvent : Type 0 where
  shipment_created : ShipmentCreated → DomainEvent
  shipment_updated : ShipmentUpdated → DomainEvent
  shipment_cancelled : ShipmentCancelled → DomainEvent
  shipment_dispatched : ShipmentDispatched → DomainEvent
  inventory_reserved : InventoryReserved → DomainEvent
  inventory_released : InventoryReleased → DomainEvent
  inventory_insufficient : InventoryInsufficient → DomainEvent
  inventory_updated : InventoryUpdated → DomainEvent
  courier_assigned : CourierAssigned → DomainEvent
  courier_unassigned : CourierUnassigned → DomainEvent
  delivery_started : DeliveryStarted → DomainEvent
  delivery_in_transit : DeliveryInTransit → DomainEvent
  delivery_completed : DeliveryCompleted → DomainEvent
  delivery_failed : DeliveryFailed → DomainEvent
  blockchain_recorded : BlockchainRecorded → DomainEvent
  blockchain_verified : BlockchainVerified → DomainEvent
  saga_started : SagaStarted → DomainEvent
  saga_completed : SagaCompleted → DomainEvent
  saga_failed : SagaFailed → DomainEvent
  saga_compensating : SagaCompensating → DomainEvent
