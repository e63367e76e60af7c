-- ===== src/Blockchain/Interleaving.antt =====
-- What a turn of one task of the confirmation monitor leaves of the other tasks and of their rows.
use supply_chain_tracker.Prelude.{
  ℕ, zero, suc, String, Bool, ◌≡◌, refl, ◌∙◌, false, Option, none, some, List, [], ◌∷◌, ◌==◌,
  str_eq, Bool-cases, Option-cases, inl, inr, All, arith, map,
}
use supply_chain_tracker.Outcome.{Outcome, returns, raises}
use supply_chain_tracker.Exec.Laws.{Keeps, Outcome-cases, lift-Keeps}
use supply_chain_tracker.Table.{upsert}
use supply_chain_tracker.Exec.Tasks.{turn_at, interleave}
use supply_chain_tracker.Blockchain.Entity.{BlockchainRecord}
use supply_chain_tracker.Blockchain.Repository.{
  Ledger, record_key, merge, is_taken, upsert_row, save,
}
use supply_chain_tracker.Blockchain.Service.{Setup, Receipt, is_enough, confirm_arguments, announce}
use supply_chain_tracker.Blockchain.Tasks.{
  Phase, asking, saving, announcing, finished, turn, after_receipt, after_save, start_confirm,
}

-- The record that a task may still save has a key and a hash of this kind.
abbrev pub About : (ℕ → String → Type 0) → Phase → Type 0
About P (asking e) = P e.record_id e.tx_hash
About P (saving e next) = P e.record_id e.tx_hash
About P (announcing e t) = Unit {0}
About P finished = Unit {0}

module _ (env : Setup) (P : ℕ → String → Type 0) where
  start_confirm-About :
      (entry : BlockchainRecord) (receipt : Receipt)
      → P entry.record_id entry.tx_hash
      → About P (start_confirm env entry receipt)
  start_confirm-About entry receipt h = elim (Outcome-cases (confirm_arguments env receipt)) [
    | inl ((block, gas, t), e) ↦ rw (e, start_confirm) h
    | inr (x, e) ↦ rw (e, start_confirm) tt
  ]

  after_receipt-About :
      (entry : BlockchainRecord) (answer : Outcome (Option Receipt))
      → P entry.record_id entry.tx_hash
      → About P (after_receipt env entry answer)
  unfolding after_receipt confirm_arguments
  after_receipt-About entry (raises x) h = tt
  after_receipt-About entry (returns none) h = tt
  after_receipt-About entry (returns (some receipt)) h = elim (Option-cases receipt.status) [
    | inl e ↦ rw e tt
    | inr (status, e) ↦ rw e (elim (Bool-cases (str_eq status "failed")) [
      | inl f ↦ rw f h
      | inr f ↦ rw f (elim (Bool-cases (str_eq status "success")) [
        | inl g ↦
            rw g (elim (Bool-cases (is_enough env.required_confirmations receipt.confirmations)) [
              | inl k ↦ rw k (start_confirm-About entry receipt h)
              | inr k ↦ rw k tt
            ])
        | inr g ↦ rw g tt
      ])
    ])
  ]

  after_save-About :
      {A : Type 0} (e : BlockchainRecord) (next : Option ℕ) (r : Outcome A)
      → About P (after_save env e next r)
  after_save-About e next (raises x) = tt
  after_save-About e none (returns a) = tt
  after_save-About e (some t) (returns a) = tt

  pub turn-About : (p : Phase) (s : Ledger) → About P p → About P (turn env p s).0
  unfolding turn
  turn-About (asking entry) s h =
      after_receipt-About entry (env.gateway.get_receipt s.asked entry.tx_hash) h
  turn-About (saving e next) s h = after_save-About e next (save env.to_column e s).0
  turn-About (announcing e t) s h = tt
  turn-About finished s h = tt

  pub turn_at-About :
      (i : ℕ) (ps : List Phase) (s : Ledger)
      → All (About P) ps
      → All (About P) (turn_at (turn env) i ps s).0
  unfolding turn_at
  turn_at-About i [] s h = tt
  turn_at-About zero (p ∷ ps) s (h, hs) = (turn-About p s h, hs)
  turn_at-About (suc i) (p ∷ ps) s (h, hs) = (h, turn_at-About i ps s hs)

  -- A part of the ledger that no `save` of such a record changes, and no other call.
  module _ {V : Type 0} (view : Ledger → V)
      (asks : (s : Ledger) → view (record s { asked = suc s.asked }) ≡ view s)
      (saves : (e : BlockchainRecord) → P e.record_id e.tx_hash → Keeps view (save env.to_column e))
      (announces : (e : BlockchainRecord) (t : ℕ) → Keeps view (announce env e t)) where
    pub turn-view : (p : Phase) (s : Ledger) → About P p → view (turn env p s).1 ≡ view s
    unfolding turn
    turn-view (asking entry) s h = asks s
    turn-view (saving e next) s h = saves e h s
    turn-view (announcing e t) s h = announces e t s
    turn-view finished s h = refl

    pub turn_at-view :
        (i : ℕ) (ps : List Phase) (s : Ledger)
        → All (About P) ps
        → view (turn_at (turn env) i ps s).1 ≡ view s
    unfolding turn_at
    turn_at-view i [] s h = refl
    turn_at-view zero (p ∷ ps) s (h, hs) = turn-view p s h
    turn_at-view (suc i) (p ∷ ps) s (h, hs) = turn_at-view i ps s hs

    pub interleave-view :
        (order : List ℕ) (ps : List Phase) (s : Ledger)
        → All (About P) ps
        → view (interleave (turn env) order ps s).1 ≡ view s
    unfolding interleave
    interleave-view [] ps s h = refl
    interleave-view (i ∷ order) ps s h =
        let (ps', s') = turn_at (turn env) i ps s in
        interleave-view order ps' s' (turn_at-About i ps s h) ∙ turn_at-view i ps s h

pub asking-About :
    (P : ℕ → String → Type 0) (rows : List BlockchainRecord)
    → All (λ row. P row.record_id row.tx_hash) rows
    → All (About P) (map asking rows)
asking-About P [] h = tt
asking-About P (row ∷ rows) (h, hs) = (h, asking-About P rows hs)

-- Whether another row has a hash is not changed by a record of a different hash.
is_taken-upsert :
    (j : ℕ) (h : String) (new : BlockchainRecord) (t : List BlockchainRecord)
    → str_eq new.tx_hash h ≡ false
    → is_taken j h (upsert record_key merge new t) ≡ is_taken j h t
is_taken-upsert j h new [] other = rw other (ground arith)
is_taken-upsert j h new (row ∷ t) other = elim (Bool-cases (row.record_id == new.record_id)) [
  | inl e ↦ rw e refl
  | inr e ↦ rw e (rw (is_taken-upsert j h new t other) refl)
]

-- nor by one of the same key
pub is_taken-upsert_self :
    (h : String) (new : BlockchainRecord) (t : List BlockchainRecord)
    → is_taken new.record_id h (upsert record_key merge new t) ≡ is_taken new.record_id h t
is_taken-upsert_self h new [] = ground arith
is_taken-upsert_self h new (row ∷ t) = elim (Bool-cases (row.record_id == new.record_id)) [
  | inl e ↦ rw e (rw e refl)
  | inr e ↦ rw e (rw e (rw (is_taken-upsert_self h new t) refl))
]

abbrev pub taken_at : ℕ → String → Ledger → Bool
taken_at j h s = is_taken j h s.records

module _ (env : Setup) (j : ℕ) (h : String) where
  upsert_row-taken :
      (e : BlockchainRecord) → str_eq e.tx_hash h ≡ false → Keeps (taken_at j h) (upsert_row e)
  unfolding upsert_row
  upsert_row-taken e other s = elim (Bool-cases (is_taken e.record_id e.tx_hash s.records)) [
    | inl f ↦ rw (f, upsert_row) refl
    | inr f ↦ rw (f, upsert_row) (is_taken-upsert j h e s.records other)
  ]

  pub save-taken :
      (e : BlockchainRecord)
      → str_eq e.tx_hash h ≡ false
      → Keeps (taken_at j h) (save env.to_column e)
  unfolding save
  save-taken e other =
      lift-Keeps (taken_at j h) (env.to_column e.payload)
        (λ p. upsert_row (record e { payload = p }))
        λ p f. upsert_row-taken (record e { payload = p }) other
