-- ===== src/Outcome.antt =====
-- What a call of the source gives: a value, or an exception. Pure code that may raise is chained
-- by the `do` of this module.
use supply_chain_tracker.Prelude.{ℕ, Option, none, some}

-- The exceptions that the modelled code raises or catches.
pub data Error : Type 0 where
  value_error key_error type_error attribute_error : Error
  quantity_error weight_error timestamp_error kafka_error jwt_error : Error
  shipment_not_found item_not_found delivery_not_found courier_not_found : Error
  inventory_record_not_found warehouse_not_found : Error
  status_transition : Error
  check_violation foreign_key_violation unique_violation : Error
  user_already_exists invalid_credentials user_not_found : Error
  http_exception : ℕ → Error

pub data Outcome {ℓ} (A : Type ℓ) : Type ℓ where
  returns : A → Outcome A
  raises : Error → Outcome A

infixl 5 ◌>>=◌
abbrev pub ◌>>=◌ {ℓ κ} : {A : Type ℓ} {B : Type κ} → Outcome A → (A → Outcome B) → Outcome B
returns a >>= f = f a
raises e >>= f = raises e

-- `if x is None: raise e`, and `d[k]` on a missing key
abbrev pub require {ℓ} : {A : Type ℓ} → Option A → Error → Outcome A
require none e = raises e
require (some a) e = returns a
