-- ===== src/Warehouse/Release.antt =====
-- What a release command leaves of the inventory.
use supply_chain_tracker.Prelude.{
  ℕ, suc, ◌≡◌, refl, ap, ◌∙◌, Bool, not, ◌&&◌, ◌||◌, Option, none, some, List, [], ◌∷◌, ◌==◌, arith,
  elem, map, filter,
}
use supply_chain_tracker.Outcome.{returns}
use supply_chain_tracker.Exec.{pure, for_each}
use supply_chain_tracker.Table.Ordering.{HasUniqueKeys, elem-order_by, elem-filter}
use supply_chain_tracker.Messaging.Codec.{Codec}
use supply_chain_tracker.Messaging.Base.{Command}
use supply_chain_tracker.Warehouse.Entity.{InventoryRecord, is_shipped}
use supply_chain_tracker.Warehouse.Repository.{
  Depot, record_key, list_by_shipment, records_of_rows, record_of_row, rows_of_shipment,
}
use supply_chain_tracker.Warehouse.Service.{list_records_by_shipment}
use supply_chain_tracker.Warehouse.Worker.{release_one, handle_release_inventory, shipment_of}
use supply_chain_tracker.Warehouse.Laws.{record_at, IsReferential}
use supply_chain_tracker.Warehouse.ReleaseOne.{
  released, is_given, release_one-Release, Release-row, Release-IsReferential, Release-none,
}

-- A row after two releases.
abbrev last : Option ℕ → Option ℕ → Option ℕ
last none m = m
last (some t) m = some t

released-released :
    (m n : Option ℕ) (row : InventoryRecord) → released m (released n row) ≡ released (last m n) row
released-released none n row = refl
released-released (some t) none row = refl
released-released (some t) (some u) row = refl

is_given-last :
    (m n : Option ℕ) (row : InventoryRecord) (first rest : Bool)
    → is_given n ≡ (first && not (is_shipped row.status))
    → is_given m ≡ (rest && not (is_shipped (released n row).status))
    → is_given (last m n) ≡ ((first || rest) && not (is_shipped row.status))
is_given-last none none row first rest p q = ground arith
is_given-last none (some u) row first rest p q = ground arith
is_given-last (some t) none row first rest p q = ground arith
is_given-last (some t) (some u) row first rest p q = ground arith

-- The row under a key after a release of some keys: received at some instant if its key is among
-- them and it was not shipped, and otherwise untouched.
abbrev pub Receives : Bool → ℕ → InventoryRecord → Depot → Type 0
Receives chosen k row s' =
    (m : Option ℕ) × (record_at k s' ≡ some (released m row))
    × (is_given m ≡ (chosen && not (is_shipped row.status)))

-- The loop over the records returns, and releases each of them that it can.
for_each-release_one :
    (entries : List InventoryRecord) (s : Depot)
    → IsReferential s
    → (s' : Depot) × (for_each entries release_one s ≡ (returns tt, s'))
      × ((k : ℕ) (row : InventoryRecord)
          → record_at k s ≡ some row
          → Receives (elem k (map record_key entries)) k row s')
      × ((k : ℕ) → record_at k s ≡ none → record_at k s' ≡ none)
unfolding for_each
for_each-release_one [] s h = (s, refl, λ k row e. (none, e, refl), λ k e. e)
for_each-release_one (entry ∷ entries) s h =
    let (s1, run1, r1) = release_one-Release entry s h in
    let (s2, run2, rows, absent) =
      for_each-release_one entries s1 (Release-IsReferential entry s s1 r1 h) in
    (
      s2,
      rw run1 run2,
      λ k row e.
          let (n, at1, given1) = Release-row entry s s1 r1 k row e in
          let (m, at2, given2) = rows k (released n row) at1 in
          (
            last m n,
            at2 ∙ ap (λ r. some r) (released-released m n row),
            is_given-last m n row (entry.record_id == k) (elem k (map record_key entries)) given1
                given2,
          ),
      λ k e. absent k (Release-none entry s s1 r1 k e),
    )

records_of_rows-keys :
    (rows : List InventoryRecord) (s : Depot)
    → (entries : List InventoryRecord) × (t : ℕ) × (records_of_rows rows s
        ≡ (returns entries, record s { ticks = t }))
      × (map record_key entries ≡ map record_key rows)
unfolding records_of_rows record_of_row
records_of_rows-keys [] s = ([], s.ticks, refl, refl)
records_of_rows-keys (row ∷ rows) s =
    let s1 = record s { ticks = suc (suc s.ticks) } in
    let (entries, t, run, keys) = records_of_rows-keys rows s1 in
    (
      record row { received_at = s.clock s.ticks; updated_at = s.clock (suc s.ticks) } ∷ entries,
      t,
      rw run,
      ap (λ ks. row.record_id ∷ ks) keys,
    )

-- The keys that the command's query selects.
elem-selected :
    (shipment_id k : ℕ) (row : InventoryRecord) (s : Depot)
    → HasUniqueKeys record_key s.inventory
    → record_at k s ≡ some row
    → elem k (map record_key (rows_of_shipment shipment_id s.inventory))
      ≡ (row.shipment_id == shipment_id)
elem-selected shipment_id k row s unique e =
    elem-order_by record_key (λ r. r.received_at) k
      (filter (λ r. r.shipment_id == shipment_id) s.inventory)
    ∙ elem-filter record_key (λ r. r.shipment_id == shipment_id) k s.inventory row unique e

loop_over :
    (entries : List InventoryRecord)
    → (elim entries [ [] ↦ pure tt | entry ∷ rest ↦ for_each (entry ∷ rest) release_one ])
      ≡ for_each entries release_one
unfolding for_each
loop_over [] = refl
loop_over (entry ∷ entries) = refl

handle_release_inventory-loop :
    (c : Codec) (command : Command) (s : Depot) (shipment_id t : ℕ) (entries : List InventoryRecord)
    → shipment_of c command.payload ≡ some shipment_id
    → records_of_rows (rows_of_shipment shipment_id s.inventory) s
      ≡ (returns entries, record s { ticks = t })
    → handle_release_inventory c command s ≡ for_each entries release_one (record s { ticks = t })
unfolding handle_release_inventory list_records_by_shipment list_by_shipment
handle_release_inventory-loop c command s shipment_id t entries names run =
    rw (names, handle_release_inventory)
      (rw run (λ i. loop_over entries i (record s { ticks = t })))

-- A release command whose payload names a shipment, on a database with unique record identifiers in
-- which every record's warehouse exists: handling it returns; every inventory record of that
-- shipment that is not shipped is then received, at some instant, and otherwise as it was; every
-- other record is untouched, and no record appears or disappears.
pub handle_release_inventory-releases :
    (c : Codec) (command : Command) (s : Depot) (shipment_id : ℕ)
    → shipment_of c command.payload ≡ some shipment_id
    → HasUniqueKeys record_key s.inventory
    → IsReferential s
    → let (result, s') = handle_release_inventory c command s in
      (result ≡ returns tt)
      × ((k : ℕ) (row : InventoryRecord)
          → record_at k s ≡ some row
          → Receives (row.shipment_id == shipment_id) k row s')
      × ((k : ℕ) → record_at k s ≡ none → record_at k s' ≡ none)
handle_release_inventory-releases c command s shipment_id names unique there =
    let rows = rows_of_shipment shipment_id s.inventory in
    let (entries, t, run, keys) = records_of_rows-keys rows s in
    let (s', run', each, absent) = for_each-release_one entries (record s { ticks = t }) there in
    rw (handle_release_inventory-loop c command s shipment_id t entries names run) (
      rw run' (
        refl,
        λ k row e.
            let (m, at', given) = each k row e in
            (
              m,
              at',
              given
                  ∙ ap (λ b. b && not (is_shipped row.status))
                      (ap (λ ks. elem k ks) keys ∙ elem-selected shipment_id k row s unique e),
            ),
        absent,
      ))
