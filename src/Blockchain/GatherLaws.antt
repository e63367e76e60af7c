-- ===== src/Blockchain/GatherLaws.antt =====
-- What a pass of the confirmation monitor comes to, in whatever order its tasks take turns.
use supply_chain_tracker.Prelude.{
  ℕ, zero, suc, String, ◌≡◌, refl, ◌∙◌, true, false, some, List, [], ◌∷◌, ◌++◌, ◌==◌, ◌+◌, str_eq,
  ltb, subst, All, arith, map, length, if◌then◌else◌, ==_refl, ap,
}
use supply_chain_tracker.Outcome.{returns}
use supply_chain_tracker.Table.{upsert, stored}
use supply_chain_tracker.Table.Laws.{find-upsert}
use supply_chain_tracker.Messaging.Value.{Fields}
use supply_chain_tracker.Exec.Tasks.{turn_at, interleave}
use supply_chain_tracker.Blockchain.Entity.{BlockchainRecord, confirm}
use supply_chain_tracker.Blockchain.Repository.{
  Ledger, record_key, merge, is_taken, upsert_row, save, pending_rows,
}
use supply_chain_tracker.Blockchain.Service.{Setup, Receipt, is_enough, confirm_arguments, announce}
use supply_chain_tracker.Blockchain.Tasks.{
  Phase, asking, saving, announcing, finished, turn, gather_pending, after_receipt, start_confirm,
}
use supply_chain_tracker.Blockchain.Laws.{row_at, save-Keeps, announce-Keeps}
use supply_chain_tracker.Blockchain.Interleaving.{
  About, turn-About, turn_at-About, turn-view, turn_at-view, interleave-view, asking-About,
  is_taken-upsert_self, taken_at, save-taken,
}
use supply_chain_tracker.Messaging.Publish.{send}

-- A pass of the confirmation monitor leaves every record as it was that is not in its batch, which
-- holds the oldest pending records up to the batch size: in whatever order the tasks take turns,
-- whatever the gateway answers, and whether the events are published or not.
pub gather_pending-Keeps :
    (env : Setup) (j : ℕ) (order : List ℕ) (batch_size : ℕ) (s : Ledger)
    → All (λ row. (row.record_id == j) ≡ false) (pending_rows batch_size s.records)
    → row_at j (gather_pending env order batch_size s).1 ≡ row_at j s
unfolding gather_pending
gather_pending-Keeps env j order batch_size s others =
    let P : ℕ → String → Type 0 = λ k h. (k == j) ≡ false in
    interleave-view env P (row_at j) (λ t. refl) (save-Keeps env j) (announce-Keeps env j) order
      (map asking (pending_rows batch_size s.records)) s
      (asking-About P (pending_rows batch_size s.records) others)

-- How many turns a task gets.
abbrev pub count : ℕ → List ℕ → ℕ
count i [] = 0
count i (k ∷ order) = if k == i then suc (count i order) else count i order

-- A record that another one differs from in its key and in its hash.
abbrev pub Differs : BlockchainRecord → ℕ → String → Type 0
Differs entry k h = ((k == entry.record_id) ≡ false) × (str_eq h entry.tx_hash ≡ false)

module _ (env : Setup) (entry : BlockchainRecord) (receipt : Receipt) (p : Fields) (block gas t : ℕ)
    (answer : (n : ℕ) → env.gateway.get_receipt n entry.tx_hash ≡ returns (some receipt))
    (success : receipt.status ≡ some "success")
    (enough : is_enough env.required_confirmations receipt.confirmations ≡ true)
    (keys : confirm_arguments env receipt ≡ returns (block, gas, t))
    (column : env.to_column entry.payload ≡ returns p) where
  abbrev settled : BlockchainRecord
  settled = confirm block gas t entry

  -- the task of the record after n turns
  abbrev stage : ℕ → Phase
  stage zero = asking entry
  stage (suc zero) = saving settled (some t)
  stage (suc (suc zero)) = announcing settled t
  stage (suc (suc (suc n))) = finished

  -- and its row
  abbrev row_after : ℕ → BlockchainRecord
  row_after zero = entry
  row_after (suc zero) = entry
  row_after (suc (suc n)) = settled

  abbrev Stands : ℕ → Phase → Ledger → Type 0
  Stands n q s =
      (q ≡ stage n)
      × (row_at entry.record_id s ≡ some (row_after n))
      × (taken_at entry.record_id entry.tx_hash s ≡ false)

  asked : after_receipt env entry (returns (some receipt)) ≡ saving settled (some t)
  unfolding after_receipt
  asked = rw success (rw enough (rw (keys, start_confirm) refl))

  saved :
      (s : Ledger)
      → taken_at entry.record_id entry.tx_hash s ≡ false
      → let new : BlockchainRecord = record settled { payload = p } in
        save env.to_column settled s ≡ (
          returns (stored record_key merge new s.records),
          record s { records = upsert record_key merge new s.records },
        )
  unfolding save upsert_row
  saved s free = rw (column, save) (rw (free, upsert_row) refl)

  stage-turn :
      (n : ℕ) (s : Ledger)
      → Stands n (stage n) s
      → Stands (suc n) (turn env (stage n) s).0 (turn env (stage n) s).1
  unfolding turn announce send
  stage-turn zero s (q, row, free) = (rw (answer s.asked) asked, row, free)
  stage-turn (suc zero) s (q, row, free) =
      let new : BlockchainRecord = record settled { payload = p } in
      rw (saved s free) (
        refl,
        find-upsert record_key merge (λ old newer. refl) entry.record_id new s.records
            ∙ rw (==_refl entry.record_id) (rw (row, stored) refl),
        is_taken-upsert_self entry.tx_hash new s.records ∙ free,
      )
  stage-turn (suc (suc zero)) s (q, row, free) = (refl, row, free)
  stage-turn (suc (suc (suc n))) s (q, row, free) = (refl, row, free)

  -- the task at a place stands, and no other task has its key or its hash
  abbrev Placed : ℕ → ℕ → List Phase → Ledger → Type 0
  Placed i n [] s = ⊥
  Placed zero n (q ∷ qs) s = Stands n q s × All (About (Differs entry)) qs
  Placed (suc i) n (q ∷ qs) s = About (Differs entry) q × Placed i n qs s

  Placed-move :
      (i n : ℕ) (qs : List Phase) (s s' : Ledger)
      → row_at entry.record_id s' ≡ row_at entry.record_id s
      → taken_at entry.record_id entry.tx_hash s' ≡ taken_at entry.record_id entry.tx_hash s
      → Placed i n qs s
      → Placed i n qs s'
  Placed-move i n [] s s' row taken h = elim h [ ]
  Placed-move zero n (q ∷ qs) s s' row taken ((stage_q, held, free), rest) =
      ((stage_q, row ∙ held, taken ∙ free), rest)
  Placed-move (suc i) n (q ∷ qs) s s' row taken (h, rest) =
      (h, Placed-move i n qs s s' row taken rest)

  save-row :
      (e : BlockchainRecord)
      → Differs entry e.record_id e.tx_hash
      → (s : Ledger) → row_at entry.record_id (save env.to_column e s).1 ≡ row_at entry.record_id s
  save-row e h = save-Keeps env entry.record_id e h.0

  turn-row :
      (q : Phase) (s : Ledger)
      → About (Differs entry) q
      → row_at entry.record_id (turn env q s).1 ≡ row_at entry.record_id s
  turn-row =
      turn-view env (Differs entry) (row_at entry.record_id) (λ s. refl) save-row
        (announce-Keeps env entry.record_id)

  announce-taken :
      (e : BlockchainRecord) (u : ℕ) (s : Ledger)
      → taken_at entry.record_id entry.tx_hash (announce env e u s).1
        ≡ taken_at entry.record_id entry.tx_hash s
  unfolding announce send
  announce-taken e u s = refl

  turn-taken :
      (q : Phase) (s : Ledger)
      → About (Differs entry) q
      → taken_at entry.record_id entry.tx_hash (turn env q s).1
        ≡ taken_at entry.record_id entry.tx_hash s
  turn-taken =
      turn-view env (Differs entry) (taken_at entry.record_id entry.tx_hash) (λ s. refl)
        (λ e h. save-taken env entry.record_id entry.tx_hash e h.1) announce-taken

  turn_at-row :
      (k : ℕ) (qs : List Phase) (s : Ledger)
      → All (About (Differs entry)) qs
      → row_at entry.record_id (turn_at (turn env) k qs s).1 ≡ row_at entry.record_id s
  turn_at-row =
      turn_at-view env (Differs entry) (row_at entry.record_id) (λ s. refl) save-row
        (announce-Keeps env entry.record_id)

  turn_at-taken :
      (k : ℕ) (qs : List Phase) (s : Ledger)
      → All (About (Differs entry)) qs
      → taken_at entry.record_id entry.tx_hash (turn_at (turn env) k qs s).1
        ≡ taken_at entry.record_id entry.tx_hash s
  turn_at-taken =
      turn_at-view env (Differs entry) (taken_at entry.record_id entry.tx_hash) (λ s. refl)
        (λ e h. save-taken env entry.record_id entry.tx_hash e h.1) announce-taken

  -- A turn of another task leaves the task where it stands, and its own turn takes it on.
  turn_at-Placed :
      (i k n : ℕ) (qs : List Phase) (s : Ledger)
      → Placed i n qs s
      → Placed i
          (if k == i then suc n else n)
          (turn_at (turn env) k qs s).0
          (turn_at (turn env) k qs s).1
  unfolding turn_at
  turn_at-Placed i k n [] s h = elim h [ ]
  turn_at-Placed zero zero n (q ∷ qs) s ((stage_q, held, free), rest) =
      (rw stage_q (stage-turn n s (refl, held, free)), rest)
  turn_at-Placed zero (suc k) n (q ∷ qs) s ((stage_q, held, free), rest) =
      let other : (suc k == 0) ≡ false = ground arith in
      rw other (
        (stage_q, turn_at-row k qs s rest ∙ held, turn_at-taken k qs s rest ∙ free),
        turn_at-About env (Differs entry) k qs s rest,
      )
  turn_at-Placed (suc i) zero n (q ∷ qs) s (h, rest) =
      let other : (0 == suc i) ≡ false = ground arith in
      rw other (
        turn-About env (Differs entry) q s h,
        Placed-move i n qs s (turn env q s).1 (turn-row q s h) (turn-taken q s h) rest,
      )
  turn_at-Placed (suc i) (suc k) n (q ∷ qs) s (h, rest) =
      let same : (suc k == suc i) ≡ (k == i) = ground arith in
      rw same (h, turn_at-Placed i k n qs s rest)

  interleave-Placed :
      (i n : ℕ) (order : List ℕ) (qs : List Phase) (s : Ledger)
      → Placed i n qs s
      → Placed i
          (n + count i order)
          (interleave (turn env) order qs s).0
          (interleave (turn env) order qs s).1
  unfolding interleave
  interleave-Placed i n [] qs s h =
      subst (λ m. Placed i m qs s) (let e : n ≡ n + 0 = omega arith in e) h
  interleave-Placed i n (k ∷ order) qs s h =
      let (qs', s') = turn_at (turn env) k qs s in
      let m : ℕ = if k == i then suc n else n in
      let e : m + count i order ≡ n + count i (k ∷ order) = ground arith in
      subst
        (λ l.
          Placed i l (interleave (turn env) order qs' s').0 (interleave (turn env) order qs' s').1)
        e (interleave-Placed i m order qs' s' (turn_at-Placed i k n qs s h))

  Placed-start :
      (before after : List BlockchainRecord) (s : Ledger)
      → All (λ row. Differs entry row.record_id row.tx_hash) (before ++ after)
      → row_at entry.record_id s ≡ some entry
      → taken_at entry.record_id entry.tx_hash s ≡ false
      → Placed (length before) 0 (map asking (before ++ entry ∷ after)) s
  Placed-start [] after s differs held free =
      ((refl, held, free), asking-About (Differs entry) after differs)
  Placed-start (row ∷ before) after s (differ, differs) held free =
      (differ, Placed-start before after s differs held free)

  Placed-row :
      (i n : ℕ) (qs : List Phase) (s : Ledger)
      → Placed i n qs s
      → row_at entry.record_id s ≡ some (row_after n)
  Placed-row i n [] s h = elim h [ ]
  Placed-row zero n (q ∷ qs) s ((stage_q, held, free), rest) = held
  Placed-row (suc i) n (q ∷ qs) s (h, rest) = Placed-row i n qs s rest

  row_after-eq : (n : ℕ) → row_after n ≡ (if ltb n 2 then entry else settled)
  row_after-eq zero = refl
  row_after-eq (suc zero) = refl
  row_after-eq (suc (suc n)) = let e : ltb (suc (suc n)) 2 ≡ false = ground arith in rw e refl

  -- In a pass of the monitor, where the gateway tells, whenever it is asked for one record, of
  -- success with enough confirmations, and has the block, the gas and the time, where the row is
  -- accepted, and no other record of the batch has its key or its hash: in whatever order the tasks
  -- take turns, and whatever the other receipts say, the record is confirmed with these three, and
  -- otherwise as it was, as soon as its task has had two turns; before, it is as it was.
  pub gather_pending-confirms :
      (before after : List BlockchainRecord) (order : List ℕ) (batch_size : ℕ) (s : Ledger)
      → pending_rows batch_size s.records ≡ before ++ entry ∷ after
      → All (λ row. Differs entry row.record_id row.tx_hash) (before ++ after)
      → row_at entry.record_id s ≡ some entry
      → is_taken entry.record_id entry.tx_hash s.records ≡ false
      → row_at entry.record_id (gather_pending env order batch_size s).1
        ≡ some (if ltb (count (length before) order) 2 then entry else confirm block gas t entry)
  unfolding gather_pending
  gather_pending-confirms before after order batch_size s batch differs held free =
      let ps : List Phase = map asking (before ++ entry ∷ after) in
      let n : ℕ = count (length before) order in
      let placed =
        interleave-Placed (length before) 0 order ps s
          (Placed-start before after s differs held free) in
      let e : 0 + n ≡ n = omega arith in
      rw batch (
        Placed-row (length before) (0 + n) (interleave (turn env) order ps s).0
          (interleave (turn env) order ps s).1 placed
        ∙ ap some (row_after-eq (0 + n) ∙ rw e refl))
