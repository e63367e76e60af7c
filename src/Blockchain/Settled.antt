-- ===== src/Blockchain/Settled.antt =====
-- A record that is confirmed or failed stays so, whatever the confirmation monitor does.
use supply_chain_tracker.Prelude.{
  ℕ, String, ◌≡◌, refl, ◌∙◌, false, List, [], ◌∷◌, ◌==◌, map, filter, All, arith, Bool-cases, inl,
  inr,
}
use supply_chain_tracker.Exec.Laws.{Keeps, lift-Keeps}
use supply_chain_tracker.Table.{upsert, order_by}
use supply_chain_tracker.Table.Ordering.{order_by-All, take-All}
use supply_chain_tracker.Messaging.Publish.{send}
use supply_chain_tracker.Blockchain.Entity.{BlockchainRecord, is_pending}
use supply_chain_tracker.Blockchain.Repository.{
  Ledger, record_key, merge, is_taken, upsert_row, save, pending_rows,
}
use supply_chain_tracker.Blockchain.Service.{Setup, announce}
use supply_chain_tracker.Blockchain.Tasks.{asking, gather_pending}
use supply_chain_tracker.Blockchain.Interleaving.{interleave-view, asking-About}

-- the rows with a key
abbrev pub rows_of : ℕ → Ledger → List BlockchainRecord
rows_of j s = filter (λ row. row.record_id == j) s.records

-- None of them is pending.
abbrev pub IsSettled : ℕ → Ledger → Type 0
IsSettled j s = All (λ row. is_pending row.status ≡ false) (rows_of j s)

-- Passes of the monitor one after the other, each with the order of its turns and its batch size.
abbrev pub run_passes : Setup → List (List ℕ × ℕ) → Ledger → Ledger
run_passes env [] s = s
run_passes env ((order, batch_size) ∷ passes) s =
    run_passes env passes (gather_pending env order batch_size s).1

filter-upsert :
    (j : ℕ) (new : BlockchainRecord) (t : List BlockchainRecord)
    → (new.record_id == j) ≡ false
    → filter (λ row. row.record_id == j) (upsert record_key merge new t)
      ≡ filter (λ row. row.record_id == j) t
filter-upsert j new [] other = rw other refl
filter-upsert j new (row ∷ t) other = elim (Bool-cases (row.record_id == new.record_id)) [
  | inl e ↦ let away : (row.record_id == j) ≡ false = ground arith in rw e (rw away refl)
  | inr e ↦ rw e (rw (filter-upsert j new t other) refl)
]

module _ (env : Setup) (j : ℕ) where
  upsert_row-rows :
      (e : BlockchainRecord) → (e.record_id == j) ≡ false → Keeps (rows_of j) (upsert_row e)
  unfolding upsert_row
  upsert_row-rows e other s = elim (Bool-cases (is_taken e.record_id e.tx_hash s.records)) [
    | inl f ↦ rw (f, upsert_row) refl
    | inr f ↦ rw (f, upsert_row) (filter-upsert j e s.records other)
  ]

  save-rows :
      (e : BlockchainRecord) → (e.record_id == j) ≡ false → Keeps (rows_of j) (save env.to_column e)
  unfolding save
  save-rows e other =
      lift-Keeps (rows_of j) (env.to_column e.payload) (λ p. upsert_row (record e { payload = p }))
        λ p f. upsert_row-rows (record e { payload = p }) other

  announce-rows : (e : BlockchainRecord) (t : ℕ) → Keeps (rows_of j) (announce env e t)
  unfolding announce send
  announce-rows e t s = refl

  pending_rows-other :
      (t : List BlockchainRecord)
      → All (λ row. is_pending row.status ≡ false) (filter (λ row. row.record_id == j) t)
      → All (λ row. (row.record_id == j) ≡ false) (filter (λ row. is_pending row.status) t)
  pending_rows-other [] h = tt
  pending_rows-other (row ∷ t) h = elim (Bool-cases (row.record_id == j)) [
    | inl e ↦
        let h' : (is_pending row.status ≡ false)
            × All (λ r. is_pending r.status ≡ false) (filter (λ r. r.record_id == j) t) =
          rw e at h in
        rw h'.0 (pending_rows-other t h'.1)
    | inr e ↦
        let h' : All (λ r. is_pending r.status ≡ false) (filter (λ r. r.record_id == j) t) =
          rw e at h in
        elim (Bool-cases (is_pending row.status)) [
          | inl p ↦ rw p (e, pending_rows-other t h')
          | inr p ↦ rw p (pending_rows-other t h')
        ]
  ]

  gather_pending-rows :
      (order : List ℕ) (batch_size : ℕ) (s : Ledger)
      → IsSettled j s
      → rows_of j (gather_pending env order batch_size s).1 ≡ rows_of j s
  unfolding gather_pending
  gather_pending-rows order batch_size s settled =
      let P : ℕ → String → Type 0 = λ k h. (k == j) ≡ false in
      let chosen = filter (λ row. is_pending row.status) s.records in
      let others =
        take-All (λ row. (row.record_id == j) ≡ false) batch_size
          (order_by (λ row. row.created_at) chosen)
          (order_by-All (λ row. (row.record_id == j) ≡ false) (λ row. row.created_at) chosen
            (pending_rows-other s.records settled)) in
      interleave-view env P (rows_of j) (λ t. refl) save-rows announce-rows order
        (map asking (pending_rows batch_size s.records)) s
        (asking-About P (pending_rows batch_size s.records) others)

  -- A record that is not pending, because it was confirmed or has failed, is never changed again by
  -- the confirmation monitor: not in any number of passes, whatever the order of the turns of their
  -- tasks and their batch sizes, whatever the gateway answers, and whether the events are published
  -- or not.
  pub rows_of-run_passes :
      (passes : List (List ℕ × ℕ)) (s : Ledger)
      → IsSettled j s
      → rows_of j (run_passes env passes s) ≡ rows_of j s
  rows_of-run_passes [] s settled = refl
  rows_of-run_passes ((order, batch_size) ∷ passes) s settled =
      let s' = (gather_pending env order batch_size s).1 in
      let same = gather_pending-rows order batch_size s settled in
      rows_of-run_passes passes s' (rw same settled) ∙ same
