-- ===== src/Messaging/Value.antt =====
-- The Python values that a payload (`Dict[str, Any]`) holds, and `dict.get`. A float
-- is the number that its 64 bits are.
use supply_chain_tracker.Prelude.{
  ℤ, pos, negsuc, ◌||◌, ◌^◌, ℕ, String, Bool, true, false, not, Option, none, some, ◌==◌, str_eq,
  if◌then◌else◌,
}

mutual
  pub data Value : Type 0 where
    null : Value
    int : ℤ → Value
    float : ℕ → Value
    text : String → Value
    uuid : ℕ → Value
    datetime : ℕ → Value
    list : Items → Value
    dict : Fields → Value

  pub data Items : Type 0 where
    nil : Items
    cons : Value → Items → Items

  pub data Fields : Type 0 where
    end : Fields
    field : String → Value → Fields → Fields

-- `d.get(key)`, with `none` for a missing key
abbrev pub get : String → Fields → Option Value
get key end = none
get key (field k v rest) = if str_eq k key then some v else get key rest

-- `bool(v)`
abbrev pub truthy : Value → Bool
truthy null = false
truthy (int (pos n)) = not (n == 0)
truthy (int (negsuc n)) = true
truthy (float bits) = not (bits == 0 || bits == 2 ^ 63)
truthy (text s) = not (str_eq s "")
truthy (uuid u) = true
truthy (datetime t) = true
truthy (list nil) = false
truthy (list (cons v vs)) = true
truthy (dict end) = false
truthy (dict (field k v rest)) = true
