-- ===== src/Warehouse/ReleaseOne.antt =====
-- What `release_one`, the loop body of a release command, leaves of the inventory.
use supply_chain_tracker.Prelude.{
  ℕ, suc, ◌≡◌, refl, sym, ap, ◌∙◌, Bool, true, false, not, ◌&&◌, Option, none, some, ◌==◌,
  Bool-cases, Option-cases, inl, inr, ==_sound,
}
use supply_chain_tracker.Outcome.{returns}
use supply_chain_tracker.Exec.Laws.{swallow->>}
use supply_chain_tracker.Table.Laws.{key-find}
use supply_chain_tracker.Warehouse.Entity.{InventoryRecord, is_shipped, received}
use supply_chain_tracker.Warehouse.Repository.{Depot, record_key}
use supply_chain_tracker.Warehouse.Service.{update_status}
use supply_chain_tracker.Warehouse.Worker.{release_one}
use supply_chain_tracker.Warehouse.Laws.{
  record_at, IsReferential, with_status, saved_state, update_status-saved, update_status-refused,
  update_status-missing, record_at-saved_state,
}

-- A row before and after a release: left alone, or received at some instant and otherwise the same.
abbrev pub released : Option ℕ → InventoryRecord → InventoryRecord
released none row = row
released (some t) row = with_status received t row

abbrev pub is_given : Option ℕ → Bool
is_given none = false
is_given (some t) = true

same_row :
    (a k : ℕ) (s : Depot) (x y : InventoryRecord)
    → record_at a s ≡ some x
    → (a == k) ≡ true
    → record_at k s ≡ some y
    → x ≡ y
same_row a k s x y p e q =
    let same : some x ≡ some y = sym p ∙ (ap (λ j. record_at j s) (==_sound a k e) ∙ q) in cc

-- How the release of one record ends.
pub data Release (entry : InventoryRecord) (s s' : Depot) : Type 0 where
  missing : record_at entry.record_id s ≡ none → s' ≡ s → Release entry s s'
  refused :
      (row : InventoryRecord)
      → record_at entry.record_id s ≡ some row
      → is_shipped row.status ≡ true
      → s' ≡ record s { ticks = suc (suc s.ticks) }
      → Release entry s s'
  saved :
      (row : InventoryRecord)
      → record_at entry.record_id s ≡ some row
      → is_shipped row.status ≡ false
      → s' ≡ saved_state received row s
      → Release entry s s'

pub release_one-Release :
    (entry : InventoryRecord) (s : Depot)
    → IsReferential s
    → (s' : Depot) × (release_one entry s ≡ (returns tt, s')) × Release entry s s'
unfolding release_one
release_one-Release entry s h = elim (Option-cases (record_at entry.record_id s)) [
  | inl e ↦ (
    s,
    swallow->> (update_status entry.record_id received) s s _
        (update_status-missing received s entry.record_id e),
    missing e refl,
  )
  | inr (row, e) ↦
      let key : row.record_id ≡ entry.record_id =
        key-find record_key entry.record_id s.inventory e in
      let found : record_at row.record_id s ≡ some row = ap (λ j. record_at j s) key ∙ e in
      elim (Bool-cases (is_shipped row.status)) [
        | inl closed ↦ (
          record s { ticks = suc (suc s.ticks) },
          rw (← key) (
              swallow->> (update_status row.record_id received) s _ _
                (update_status-refused received s row found (rw closed))),
          refused row e closed refl,
        )
        | inr open' ↦ (
          saved_state received row s,
          rw (← key) (
              swallow->> (update_status row.record_id received) s _ _
                (update_status-saved received s row found (h entry.record_id row e) (rw open'))),
          saved row e open' refl,
        )
      ]
]

-- What one release does to the row under a key.
pub Release-row :
    (entry : InventoryRecord) (s s' : Depot)
    → Release entry s s'
    → (k : ℕ) (row : InventoryRecord) → record_at k s ≡ some row
    → (m : Option ℕ) × (record_at k s' ≡ some (released m row))
      × (is_given m ≡ (entry.record_id == k && not (is_shipped row.status)))
Release-row entry s s' (missing e same) k row at_k = elim (Bool-cases (entry.record_id == k)) [
  | inr other ↦ (none, rw same at_k, rw other)
  | inl here ↦
      let clash : none ≡ some row =
        sym e ∙ (ap (λ j. record_at j s) (==_sound entry.record_id k here) ∙ at_k) in
      absurd (cc clash)
]
Release-row entry s s' (refused row' e closed same) k row at_k =
    elim (Bool-cases (entry.record_id == k)) [
      | inr other ↦ (none, rw same at_k, rw other)
      | inl here ↦ (
        none,
        rw same at_k,
        rw here (rw (← same_row entry.record_id k s row' row e here at_k) (rw closed)),
      )
    ]
Release-row entry s s' (saved row' e open' same) k row at_k =
    let key : row'.record_id ≡ entry.record_id =
      key-find record_key entry.record_id s.inventory e in
    let found : record_at row'.record_id s ≡ some row' = ap (λ j. record_at j s) key ∙ e in
    elim (Bool-cases (entry.record_id == k)) [
      | inr other ↦ (
        none,
        rw same (
            rw (record_at-saved_state received s row' k found)
              (rw (ap (λ j. j == k) key ∙ other) at_k)),
        rw other,
      )
      | inl here ↦ (
        some (s.clock (suc (suc s.ticks))),
        rw same (
            rw (record_at-saved_state received s row' k found) (
              rw (ap (λ j. j == k) key ∙ here) (
                ap (λ r. some (with_status received (s.clock (suc (suc s.ticks))) r))
                  (same_row entry.record_id k s row' row e here at_k)))),
        rw here (rw (← same_row entry.record_id k s row' row e here at_k) (rw open')),
      )
    ]

pub Release-IsReferential :
    (entry : InventoryRecord) (s s' : Depot)
    → Release entry s s'
    → IsReferential s
    → IsReferential s'
Release-IsReferential entry s s' (missing e same) h = rw same h
Release-IsReferential entry s s' (refused row e closed same) h = rw same h
Release-IsReferential entry s s' (saved row e open' same) h = rw same (λ k x at_k.
    let key : row.record_id ≡ entry.record_id = key-find record_key entry.record_id s.inventory e in
    let found : record_at row.record_id s ≡ some row = ap (λ j. record_at j s) key ∙ e in
    let now_at = sym (record_at-saved_state received s row k found) ∙ at_k in
    elim (Bool-cases (row.record_id == k)) [
      | inr other ↦ h k x (rw other at now_at)
      | inl here ↦
          let t = s.clock (suc (suc s.ticks)) in
          let same' : some (with_status received t row) ≡ some x = rw here at now_at in
          let is_x : with_status received t row ≡ x = cc in rw (← is_x) (h entry.record_id row e)
    ])

pub Release-none :
    (entry : InventoryRecord) (s s' : Depot)
    → Release entry s s'
    → (k : ℕ) → record_at k s ≡ none
    → record_at k s' ≡ none
Release-none entry s s' (missing e same) k absent = rw same absent
Release-none entry s s' (refused row e closed same) k absent = rw same absent
Release-none entry s s' (saved row e open' same) k absent =
    let key : row.record_id ≡ entry.record_id = key-find record_key entry.record_id s.inventory e in
    let found : record_at row.record_id s ≡ some row = ap (λ j. record_at j s) key ∙ e in
    rw same (
      rw (record_at-saved_state received s row k found) (elim (Bool-cases (row.record_id == k)) [
        | inr other ↦ rw other absent
        | inl here ↦
            let clash : some row ≡ none =
              sym found ∙ (ap (λ j. record_at j s) (==_sound row.record_id k here) ∙ absent) in
            absurd (cc clash)
      ]))
