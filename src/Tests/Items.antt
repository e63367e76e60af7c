-- ===== src/Tests/Items.antt =====
-- An item of three pieces of shipment 2, the only one there is; weights are whole numbers, and the
-- database takes a positive quantity of an INTEGER column and a positive weight.
use supply_chain_tracker.Prelude.{
  pos, ℕ, ◌≡◌, refl, some, ◌==◌, ltb, ◌&&◌, if◌then◌else◌, none, [], ◌∷◌, ◌+◌, ◌*◌, false, arith,
}
use supply_chain_tracker.Outcome.{returns, raises, value_error, check_violation}
use supply_chain_tracker.Shipment.Items.{Setup, ItemRow, ItemDb}
use supply_chain_tracker.Shipment.ItemService.{increase_quantity, decrease_quantity}
use supply_chain_tracker.Shipment.ItemLaws.{
  row_at, IsValid, decrease_quantity-refuses, decrease_quantity-increase_quantity,
}

abbrev pub whole : Setup ℕ
whole = record {
  is_negative = λ w. false;
  zero_weight = 0;
  plus = λ a b. a + b;
  times = λ a b. a * b;
  to_column = λ w. w;
  violation = λ shipment_id q w.
      if (shipment_id == 2 && ltb 0 q) && (ltb q 2147483648 && ltb 0 w)
      then none
      else some check_violation;
  rank = λ name. 0;
}

abbrev bolts : ItemRow ℕ
bolts = record { item_id = 6; shipment_id = 2; name = "bolts"; quantity = 3; weight = 40 }

abbrev items : ItemDb ℕ
items = record { items = record bolts { item_id = 5 } ∷ bolts ∷ [] }

bolts-IsValid : IsValid whole bolts
bolts-IsValid = record { positive = refl; not_negative = refl; fits = refl }

decrease_quantity-refuses_example :
    decrease_quantity whole 6 (pos 4) items ≡ (raises value_error, items)
decrease_quantity-refuses_example =
    decrease_quantity-refuses whole 6 4 items bolts refl bolts-IsValid (ground arith)

decrease_quantity-increase_quantity_example :
    let (larger, s₁) = increase_quantity whole 6 (pos 2) items in
    let (back, s₂) = decrease_quantity whole 6 (pos 2) s₁ in
    (larger
      ≡ returns (record {
        name = "bolts";
        quantity = record { value = 5 };
        weight = record { value = 40 };
        item_id = 6;
        shipment_id = 2;
      }))
    × (back
        ≡ returns (record {
          name = "bolts";
          quantity = record { value = 3 };
          weight = record { value = 40 };
          item_id = 6;
          shipment_id = 2;
        }))
    × ((j : ℕ) → row_at whole j s₂ ≡ row_at whole j items)
decrease_quantity-increase_quantity_example =
    decrease_quantity-increase_quantity whole 2 items bolts refl bolts-IsValid refl refl
