-- ===== src/Messaging/EventLaws.antt =====
-- What the converter makes of a domain event.
use supply_chain_tracker.Prelude.{ℕ, ◌≡◌, refl, Bool, true, false, ◌&&◌, Option}
use supply_chain_tracker.Messaging.Value.{
  Value, Items, Fields, null, int, float, text, uuid, datetime, list, dict, nil, cons, end, field,
}
use supply_chain_tracker.Messaging.Codec.{Codec}
use supply_chain_tracker.Messaging.Events.{DomainEvent}
use supply_chain_tracker.Messaging.Converter.{
  asdict, serialize_payload, serialize_value, serialize_items, to_event,
}

-- What `json.dumps` takes: no identifiers and no instants, at any depth.
unfoldable mutual
  pub is_json : Value → Bool
  is_json (uuid u) = false
  is_json (datetime t) = false
  is_json (list items) = items_json items
  is_json (dict d) = fields_json d
  is_json null = true
  is_json (int n) = true
  is_json (float bits) = true
  is_json (text s) = true

  pub items_json : Items → Bool
  items_json nil = true
  items_json (cons v rest) = is_json v && items_json rest

  pub fields_json : Fields → Bool
  fields_json end = true
  fields_json (field key v rest) = is_json v && fields_json rest

-- A list, at any depth of dictionaries, holds dictionaries and what `json.dumps` takes.
unfoldable mutual
  pub has_plain_lists : Value → Bool
  has_plain_lists (list items) = plain_items items
  has_plain_lists (dict d) = plain_fields d
  has_plain_lists null = true
  has_plain_lists (int n) = true
  has_plain_lists (float bits) = true
  has_plain_lists (text s) = true
  has_plain_lists (uuid u) = true
  has_plain_lists (datetime t) = true

  pub plain_items : Items → Bool
  plain_items nil = true
  plain_items (cons (dict d) rest) = plain_fields d && plain_items rest
  plain_items (cons null rest) = plain_items rest
  plain_items (cons (int n) rest) = plain_items rest
  plain_items (cons (float bits) rest) = plain_items rest
  plain_items (cons (text s) rest) = plain_items rest
  plain_items (cons (uuid u) rest) = false
  plain_items (cons (datetime t) rest) = false
  plain_items (cons (list items) rest) = items_json items && plain_items rest

  pub plain_fields : Fields → Bool
  plain_fields end = true
  plain_fields (field key v rest) = has_plain_lists v && plain_fields rest

both : (a b : Bool) → (a && b) ≡ true → (a ≡ true) × (b ≡ true)
both true b h = (refl, h)
both false b h = absurd (cc h)

join : {a b : Bool} → a ≡ true → b ≡ true → (a && b) ≡ true
join p q = rw p q

mutual
  unfolding serialize_payload is_json has_plain_lists

  value-json :
      (c : Codec) (v : Value) → has_plain_lists v ≡ true → is_json (serialize_value c v) ≡ true
  value-json c null h = refl
  value-json c (int n) h = refl
  value-json c (float bits) h = refl
  value-json c (text s) h = refl
  value-json c (uuid u) h = refl
  value-json c (datetime t) h = refl
  value-json c (list items) h = items-json c items h
  value-json c (dict d) h = payload-json c d h

  items-json :
      (c : Codec) (items : Items)
      → plain_items items ≡ true
      → items_json (serialize_items c items) ≡ true
  items-json c nil h = refl
  items-json c (cons (dict d) rest) h =
      let (p, q) = both (plain_fields d) (plain_items rest) h in
      join (payload-json c d p) (items-json c rest q)
  items-json c (cons null rest) h = items-json c rest h
  items-json c (cons (int n) rest) h = items-json c rest h
  items-json c (cons (float bits) rest) h = items-json c rest h
  items-json c (cons (text s) rest) h = items-json c rest h
  items-json c (cons (uuid u) rest) h = absurd (cc h)
  items-json c (cons (datetime t) rest) h = absurd (cc h)
  items-json c (cons (list items) rest) h =
      let (p, q) = both (items_json items) (plain_items rest) h in join p (items-json c rest q)

  payload-json :
      (c : Codec) (d : Fields) → plain_fields d ≡ true → fields_json (serialize_payload c d) ≡ true
  payload-json c end h = refl
  payload-json c (field key v rest) h =
      let (p, q) = both (has_plain_lists v) (plain_fields rest) h in
      join (value-json c v p) (payload-json c rest q)

-- An event made of a domain event whose lists hold dictionaries and JSON values, at any depth, has
-- a payload that `json.dumps` takes: no identifier and no instant is left in it.
pub to_event-is_json :
    (c : Codec) (id now : ℕ) (e : DomainEvent) (correlation_id : Option ℕ)
    → plain_fields (asdict e) ≡ true
    → fields_json (to_event c id now e correlation_id).payload ≡ true
unfolding to_event
to_event-is_json c id now e correlation_id plain = payload-json c (asdict e) plain
