-- ===== src/Messaging/Base.antt =====
-- libs/libs/messaging/base.py: events and commands, and their dictionaries. The annotated types of
-- the fields are taken as kept: where a dictionary holds a value of another type under a key that
-- is read as a text or as a dict, reading it is a TypeError.
use supply_chain_tracker.Prelude.{ℕ, String, Option, none, some, if◌then◌else◌}
use supply_chain_tracker.Outcome.{Outcome, returns, raises, require, key_error, type_error, ◌>>=◌}
use supply_chain_tracker.Messaging.Value.{Value, null, text, dict, Fields, end, field, get, truthy}
use supply_chain_tracker.Messaging.Codec.{Codec, to_uuid, to_time}

pub record Event : Type 0 where
  pub event_type : String
  pub aggregate_id : ℕ
  pub aggregate_type : String
  pub payload : Fields
  pub event_id : ℕ
  pub timestamp : ℕ
  pub correlation_id : Option ℕ

pub record Command : Type 0 where
  pub command_type : String
  pub aggregate_id : ℕ
  pub payload : Fields
  pub command_id : ℕ
  pub correlation_id : Option ℕ

-- `d[key]`
abbrev pub item : String → Fields → Outcome Value
item key d = require (get key d) key_error

abbrev pub as_text : Value → Outcome String
as_text (text s) = returns s
as_text v = raises type_error

abbrev pub as_dict : Value → Outcome Fields
as_dict (dict d) = returns d
as_dict v = raises type_error

abbrev pub text_item : String → Fields → Outcome String
text_item key d = do v ← item key d; as_text v

-- `str(x) if x else None`: an identifier is never falsy
abbrev pub optional_text : Codec → Option ℕ → Value
optional_text c none = null
optional_text c (some u) = text (c.show_uuid u)

-- `uuid.UUID(data[key]) if data.get(key) else None`
abbrev pub optional_uuid : Codec → Option Value → Outcome (Option ℕ)
optional_uuid c none = returns none
optional_uuid c (some v) =
    if truthy v then (do s ← as_text v; u ← to_uuid c s; returns (some u)) else returns none

module _ (c : Codec) where
  unfoldable pub to_dict : Event → Fields
  to_dict e = field "event_id" (text (c.show_uuid e.event_id)) (
      field "event_type" (text e.event_type) (
        field "aggregate_id" (text (c.show_uuid e.aggregate_id)) (
          field "aggregate_type" (text e.aggregate_type) (
            field "payload" (dict e.payload) (
              field "timestamp" (text (c.show_time e.timestamp))
                (field "correlation_id" (optional_text c e.correlation_id) end))))))

  unfoldable pub event_from_dict : Fields → Outcome Event
  event_from_dict d = do
    event_type ← text_item "event_type" d
    aggregate_text ← text_item "aggregate_id" d
    aggregate_id ← to_uuid c aggregate_text
    aggregate_type ← text_item "aggregate_type" d
    payload_value ← item "payload" d
    payload ← as_dict payload_value
    event_text ← text_item "event_id" d
    event_id ← to_uuid c event_text
    time_text ← text_item "timestamp" d
    timestamp ← to_time c time_text
    correlation_id ← optional_uuid c (get "correlation_id" d)
    returns (record {
      event_type = event_type;
      aggregate_id = aggregate_id;
      aggregate_type = aggregate_type;
      payload = payload;
      event_id = event_id;
      timestamp = timestamp;
      correlation_id = correlation_id;
    })

  unfoldable pub command_from_dict : Fields → Outcome Command
  command_from_dict d = do
    command_type ← text_item "command_type" d
    aggregate_text ← text_item "aggregate_id" d
    aggregate_id ← to_uuid c aggregate_text
    payload_value ← item "payload" d
    payload ← as_dict payload_value
    command_text ← text_item "command_id" d
    command_id ← to_uuid c command_text
    correlation_id ← optional_uuid c (get "correlation_id" d)
    returns (record {
      command_type = command_type;
      aggregate_id = aggregate_id;
      payload = payload;
      command_id = command_id;
      correlation_id = correlation_id;
    })

-- `json.dumps` of a dictionary, and `json.loads` of a text that is one, or their exceptions
pub record Json : Type 0 where
  pub dumps : Fields → Outcome String
  pub loads : String → Outcome Fields

module _ (c : Codec) (json : Json) where
  unfoldable pub to_json : Event → Outcome String
  to_json e = json.dumps (to_dict c e)

  unfoldable pub event_from_json : String → Outcome Event
  event_from_json s = do d ← json.loads s; event_from_dict c d

  unfoldable pub command_from_json : String → Outcome Command
  command_from_json s = do d ← json.loads s; command_from_dict c d
