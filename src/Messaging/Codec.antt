-- ===== src/Messaging/Codec.antt =====
-- What the standard library does with identifiers and instants: `str(u)`, `uuid.UUID(s)`,
-- `t.isoformat()`, `datetime.fromisoformat(s)`, and `str(v)` for the other values. It is a
-- parameter of the model; the fields after the operations are its documented behaviour.
use supply_chain_tracker.Prelude.{ℕ, String, ◌≡◌, Option, some, str_eq, false}
use supply_chain_tracker.Outcome.{Outcome, require, value_error}
use supply_chain_tracker.Messaging.Value.{Value, text, uuid}

pub record Codec : Type 0 where
  pub show_uuid : ℕ → String
  pub parse_uuid : String → Option ℕ
  pub show_time : ℕ → String
  pub parse_time : String → Option ℕ
  pub show_other : Value → String
  pub parse-show_uuid : (u : ℕ) → parse_uuid (show_uuid u) ≡ some u
  pub parse-show_time : (t : ℕ) → parse_time (show_time t) ≡ some t
  pub show_uuid_nonempty : (u : ℕ) → str_eq (show_uuid u) "" ≡ false

-- `str(v)`
abbrev pub str : Codec → Value → String
str c (text s) = s
str c (uuid u) = c.show_uuid u
str c v = c.show_other v

-- `uuid.UUID(s)`, which raises ValueError on a malformed text
abbrev pub to_uuid : Codec → String → Outcome ℕ
to_uuid c s = require (c.parse_uuid s) value_error

-- `datetime.fromisoformat(s)`
abbrev pub to_time : Codec → String → Outcome ℕ
to_time c s = require (c.parse_time s) value_error
