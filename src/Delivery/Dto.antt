-- ===== src/Delivery/Dto.antt =====
-- services/delivery_service/src/api/dto and mappers: the DTOs of couriers and deliveries.
use supply_chain_tracker.Prelude.{ℕ, String, Option, none, some, ◌==◌, if◌then◌else◌}
use supply_chain_tracker.Exec.{Exec, pure, lift, ◌>>=◌}
use supply_chain_tracker.Delivery.Entity.{
  DeliveryStatus, assigned, Courier, Delivery, full_name, contact_info, update_contact,
  update_status, mark_delivered,
}
use supply_chain_tracker.Delivery.Repository.{Fleet, Setup, now, uuid4}

pub record CourierCreateDto : Type 0 where
  pub name : String
  pub contact_info : String

pub record CourierDto : Type 0 where
  pub courier_id : ℕ
  pub name : String
  pub contact_info : String

pub record CourierUpdateDto : Type 0 where
  pub name : Option String
  pub contact_info : Option String

pub record DeliveryCreateDto : Type 0 where
  pub shipment_id : ℕ
  pub courier_id : ℕ
  pub estimated_arrival : Option ℕ
  pub status : Option DeliveryStatus

pub record DeliveryDto : Type 0 where
  pub delivery_id : ℕ
  pub shipment_id : ℕ
  pub courier_id : ℕ
  pub status : DeliveryStatus
  pub created_at : ℕ
  pub updated_at : ℕ
  pub estimated_arrival : Option ℕ
  pub actual_arrival : Option ℕ

pub record DeliveryUpdateDto : Type 0 where
  pub courier_id : Option ℕ
  pub status : Option DeliveryStatus
  pub estimated_arrival : Option ℕ
  pub actual_arrival : Option ℕ

-- `CourierMapper.entity_to_dto`
abbrev pub courier_to_dto : Courier → CourierDto
courier_to_dto courier = record {
  courier_id = courier.courier_id;
  name = courier.name.value;
  contact_info = courier.contact_info.value;
}

-- `DeliveryMapper.entity_to_dto`
abbrev pub entity_to_dto : Delivery → DeliveryDto
entity_to_dto delivery = record {
  delivery_id = delivery.delivery_id;
  shipment_id = delivery.shipment_id;
  courier_id = delivery.courier.courier_id;
  status = delivery.status;
  created_at = delivery.created_at;
  updated_at = delivery.updated_at;
  estimated_arrival = delivery.estimated_arrival;
  actual_arrival = delivery.actual_arrival;
}

-- `DeliveryMapper.create_dto_to_entity`: `Delivery.__init__` draws the identifier, and reads the
-- clock for `created_at` and for `updated_at`
unfoldable pub create_dto_to_entity : DeliveryCreateDto → Courier → Exec Fleet Delivery
create_dto_to_entity dto courier = do
  id ← uuid4
  t ← now
  u ← now
  pure (record {
    delivery_id = id;
    shipment_id = dto.shipment_id;
    courier = courier;
    status = elim dto.status [ none ↦ assigned | some status ↦ status ];
    estimated_arrival = dto.estimated_arrival;
    actual_arrival = none;
    created_at = t;
    updated_at = u;
  })

-- The three steps of `DeliveryMapper.update_entity_from_dto`.
unfoldable pub with_courier : DeliveryUpdateDto → Option Courier → Delivery → Exec Fleet Delivery
with_courier dto new_courier delivery = elim dto.courier_id [
  | none ↦ pure delivery
  | some id ↦ elim new_courier [
    | none ↦ pure delivery
    | some c ↦
        if c.courier_id == id
        then (do t ← now; pure (record delivery { courier = c; updated_at = t }))
        else pure delivery
  ]
]

unfoldable pub with_status : DeliveryUpdateDto → Delivery → Exec Fleet Delivery
with_status dto delivery = elim dto.actual_arrival [
  | some arrival ↦ do t ← now; pure (mark_delivered t arrival delivery)
  | none ↦ elim dto.status [
    | some status ↦ do t ← now; pure (update_status t status delivery)
    | none ↦ pure delivery
  ]
]

unfoldable pub with_estimate : DeliveryUpdateDto → Delivery → Exec Fleet Delivery
with_estimate dto delivery = elim dto.estimated_arrival [
  | none ↦ pure delivery
  | some arrival ↦ do
    t ← now
    pure (record delivery { estimated_arrival = some arrival; updated_at = t })
]

unfoldable pub update_entity_from_dto :
    Delivery → DeliveryUpdateDto → Option Courier → Exec Fleet Delivery
update_entity_from_dto entity dto new_courier = do
  first ← with_courier dto new_courier entity
  second ← with_status dto first
  with_estimate dto second

-- `dto.courier_id is not None and dto.courier_id != delivery.courier.courier_id`: the courier to
-- look up
abbrev pub changed_courier : DeliveryUpdateDto → Delivery → Option ℕ
changed_courier dto delivery = elim dto.courier_id [
  | none ↦ none
  | some id ↦ if id == delivery.courier.courier_id then none else some id
]

module _ (env : Setup) where
  -- `CourierMapper.create_dto_to_entity`
  unfoldable pub courier_of_dto : CourierCreateDto → Exec Fleet Courier
  courier_of_dto dto = do
    name ← lift (full_name env.stripped_len dto.name)
    contact ← lift (contact_info env.stripped_len dto.contact_info)
    id ← uuid4
    pure (record { courier_id = id; name = name; contact_info = contact })

  -- `CourierMapper.update_entity_from_dto`
  unfoldable pub update_courier_from_dto : Courier → CourierUpdateDto → Exec Fleet Courier
  update_courier_from_dto entity dto = do
    named ← elim dto.name [
      | none ↦ pure entity
      | some n ↦ do name ← lift (full_name env.stripped_len n); pure (record entity { name = name })
    ]
    elim dto.contact_info [
      | none ↦ pure named
      | some i ↦ do
        new_contact ← lift (contact_info env.stripped_len i)
        pure (update_contact new_contact named)
    ]
