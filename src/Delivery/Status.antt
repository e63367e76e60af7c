-- ===== src/Delivery/Status.antt =====
-- The status of a delivery under the operations of DeliveryService.
use supply_chain_tracker.Prelude.{
  ℕ, suc, ◌≡◌, subst, refl, ap, ◌∙◌, true, false, Option, none, some, ◌==◌, if◌then◌else◌, inl, inr,
  ==_refl, Option-cases, Bool-cases, leb,
}
use supply_chain_tracker.Outcome.{Outcome, returns, raises, status_transition, check_violation}
use supply_chain_tracker.Exec.{Exec}
use supply_chain_tracker.Table.{Table, find, stored, upsert}
use supply_chain_tracker.Table.Laws.{find-upsert, key-find}
use supply_chain_tracker.Delivery.Entity.{
  DeliveryStatus, assigned, in_transit, delivered, confirmed, value, Delivery,
}
use supply_chain_tracker.Delivery.Repository.{
  DeliveryRow, Fleet, Setup, courier_key, delivery_key, merge_delivery, row_of_delivery,
  save_delivery, references, dates_fit, both_fit,
}
use supply_chain_tracker.Delivery.Service
use supply_chain_tracker.Delivery.Laws.{
  row_at, Readable, delivery_at, get_delivery-Readable, courier_of_row-courier_id,
}

-- The operations of DeliveryService that the life of a delivery is made of.
pub data Operation : Type 0 where
  receive prepare depart finish : Operation
  arrive : ℕ → Operation

abbrev pub perform : Setup → Operation → ℕ → Exec Fleet Delivery
perform env receive k = Service.mark_as_received env k
perform env prepare k = Service.mark_as_ready_for_delivery env k
perform env depart k = Service.mark_as_in_transit env k
perform env finish k = Service.mark_as_completed env k
perform env (arrive date) k = Service.mark_as_delivered env k date

-- What is to become of an operation: the status that it leads to, that the service refuses it, or that
-- the database does.
pub data Verdict : Type 0 where
  leads_to : DeliveryStatus → Verdict
  refused violating : Verdict

-- By the instant at which the delivery was created, and its status.
abbrev pub next : Operation → ℕ → DeliveryStatus → Verdict
next receive created delivered = refused
next receive created status = leads_to status
next prepare created status = leads_to status
next depart created delivered = refused
next depart created status = leads_to in_transit
next finish created delivered = leads_to confirmed
next finish created status = refused
next (arrive date) created status = if leb created date then leads_to delivered else violating

-- The service saved `status` for the delivery `k`, and returned it.
pub record Saves (status : DeliveryStatus) (k : ℕ) (s : Fleet) (r : Outcome Delivery × Fleet)
    : Type 0 where
  pub saved : Delivery
  pub result : r.0 ≡ returns saved
  pub has_status : saved.status ≡ status
  pub is_held : (row : DeliveryRow) × (row_at k r.1 ≡ some row) × (row.status ≡ status)
  pub others : (j : ℕ) → (k == j) ≡ false → row_at j r.1 ≡ row_at j s

-- The database refused the row, and the deliveries are as they were.
abbrev pub Violates : Fleet → Outcome Delivery × Fleet → Type 0
Violates s r = (r.0 ≡ raises check_violation) × (r.1.deliveries ≡ s.deliveries)

-- The service refused, and the deliveries are as they were.
abbrev pub Refuses : Fleet → Outcome Delivery × Fleet → Type 0
Refuses s r = (r.0 ≡ raises status_transition) × (r.1.deliveries ≡ s.deliveries)

-- What an operation comes to, by its verdict.
abbrev pub Conforms : Verdict → ℕ → Fleet → Outcome Delivery × Fleet → Type 0
Conforms refused k s r = Refuses s r
Conforms violating k s r = Violates s r
Conforms (leads_to status) k s r = Saves status k s r

stored_status :
    (row : DeliveryRow) (t : Table DeliveryRow)
    → (stored delivery_key merge_delivery row t).status ≡ row.status
stored_status row t = elim (Option-cases (find delivery_key row.delivery_id t)) [
  | inl e ↦ rw (e, stored) refl
  | inr (old, e) ↦ rw (e, stored) refl
]

-- the state that saving a delivery leaves
abbrev after_save : Delivery → Fleet → Fleet
after_save d s = record s {
  deliveries = upsert delivery_key merge_delivery (row_of_delivery d) s.deliveries;
}

row_at-after_save :
    (d : Delivery) (j : ℕ) (s : Fleet)
    → row_at j (after_save d s) ≡ (
        if d.delivery_id == j
        then some (stored delivery_key merge_delivery (row_of_delivery d) s.deliveries)
        else row_at j s)
row_at-after_save d j s =
    find-upsert delivery_key merge_delivery (λ old new. refl) j (row_of_delivery d) s.deliveries

save_delivery-Saves :
    (env : Setup) (t : ℕ) (s : Fleet) (d : Delivery)
    → env.violation (value d.status) ≡ none
    → references d.courier.courier_id s ≡ true
    → both_fit (row_of_delivery d) s.deliveries ≡ true
    → Saves d.status d.delivery_id s (save_delivery env d (record s { ticks = t }))
unfolding save_delivery
save_delivery-Saves env t s d ok there fit =
    let s1 : Fleet = record s { ticks = t } in
    let k = d.delivery_id in
    rw (ok, save_delivery)
      (rw fit (
        rw there (record {
          saved = d;
          result = refl;
          has_status = refl;
          is_held = (
            stored delivery_key merge_delivery (row_of_delivery d) s.deliveries,
            row_at-after_save d k s1 ∙ rw (==_refl k) refl,
            stored_status (row_of_delivery d) s.deliveries,
          );
          others = λ j other. row_at-after_save d j s1 ∙ rw other refl;
        })))

-- The courier of a delivery that can be read is a row of the table.
references-Readable :
    (env : Setup) (k : ℕ) (s : Fleet) (r : Readable env k s)
    → references r.courier.courier_id s ≡ true
references-Readable env k s r = rw (courier_of_row-courier_id env r.courier_row r.courier r.valid) (
    rw (key-find courier_key r.row.courier_id s.couriers r.has_courier)
      (rw (r.has_courier, references) refl))

save_delivery-Readable :
    (env : Setup) (t k : ℕ) (s : Fleet) (r : Readable env k s) (d : Delivery)
    → env.violation (value d.status) ≡ none
    → d.delivery_id ≡ r.row.delivery_id
    → d.courier ≡ r.courier
    → both_fit (row_of_delivery d) s.deliveries ≡ true
    → Saves d.status k s (save_delivery env d (record s { ticks = t }))
save_delivery-Readable env t k s r d ok same courier fit =
    let here : d.delivery_id ≡ k = same ∙ key-find delivery_key k s.deliveries r.has_row in
    subst (λ j. Saves d.status j s (save_delivery env d (record s { ticks = t }))) here
      (save_delivery-Saves env t s d ok
        (ap (λ c. references c.courier_id s) courier ∙ references-Readable env k s r) fit)

-- the delivery that is read, with another status, date of change and date of arrival
abbrev changed :
    {env : Setup} {k : ℕ} {s : Fleet} → Readable env k s → DeliveryStatus → ℕ → Option ℕ → Delivery
changed r status u a = record (delivery_at r) {
  status = status;
  updated_at = u;
  actual_arrival = a;
}

both_fit-changed :
    (env : Setup) (k : ℕ) (s : Fleet) (r : Readable env k s) (status : DeliveryStatus) (u : ℕ)
    (a : Option ℕ)
    → dates_fit (record r.row { actual_arrival = a }) ≡ true
    → both_fit (row_of_delivery (changed r status u a)) s.deliveries ≡ true
both_fit-changed env k s r status u a fit =
    let has : find delivery_key r.row.delivery_id s.deliveries ≡ some r.row =
      ap (λ j. find delivery_key j s.deliveries) (key-find delivery_key k s.deliveries r.has_row)
      ∙ r.has_row in
    rw (has, stored) (rw fit refl)

get_or_raise-Readable :
    (env : Setup) (k : ℕ) (s : Fleet) (r : Readable env k s)
    → Service.get_or_raise env k s
      ≡ (returns (delivery_at r), record s { ticks = suc (suc s.ticks) })
unfolding Service.get_or_raise
get_or_raise-Readable env k s r = rw (get_delivery-Readable env k s r) refl

module _ (env : Setup)
    (accepts : (status : DeliveryStatus) → env.violation (value status) ≡ none) where
  saves :
      (t k : ℕ) (s : Fleet) (r : Readable env k s) (status : DeliveryStatus) (u : ℕ) (a : Option ℕ)
      → dates_fit (record r.row { actual_arrival = a }) ≡ true
      → Saves status k s (save_delivery env (changed r status u a) (record s { ticks = t }))
  saves t k s r status u a fit =
      save_delivery-Readable env t k s r (changed r status u a) (accepts status) refl refl
        (both_fit-changed env k s r status u a fit)

  violates :
      (t k : ℕ) (s : Fleet) (r : Readable env k s) (status : DeliveryStatus) (u : ℕ) (a : Option ℕ)
      → dates_fit (record r.row { actual_arrival = a }) ≡ false
      → Violates s (save_delivery env (changed r status u a) (record s { ticks = t }))
  unfolding save_delivery
  violates t k s r status u a misfit = rw (accepts status, save_delivery) (rw misfit (refl, refl))

  receive-next :
      (k : ℕ) (s : Fleet) (r : Readable env k s) (status : DeliveryStatus)
      → r.row.status ≡ status
      → dates_fit r.row ≡ true
      → Conforms (next receive r.row.created_at status) k s (perform env receive k s)
  unfolding Service.mark_as_received
  receive-next k s r assigned e fit =
      rw (get_or_raise-Readable env k s r) (rw e (saves _ k s r assigned _ _ fit))
  receive-next k s r in_transit e fit =
      rw (get_or_raise-Readable env k s r) (rw e (saves _ k s r in_transit _ _ fit))
  receive-next k s r delivered e fit = rw (get_or_raise-Readable env k s r) (rw e (refl, refl))
  receive-next k s r confirmed e fit =
      rw (get_or_raise-Readable env k s r) (rw e (saves _ k s r confirmed _ _ fit))

  prepare-next :
      (k : ℕ) (s : Fleet) (r : Readable env k s) (status : DeliveryStatus)
      → r.row.status ≡ status
      → dates_fit r.row ≡ true
      → Conforms (next prepare r.row.created_at status) k s (perform env prepare k s)
  unfolding Service.mark_as_ready_for_delivery
  prepare-next k s r assigned e fit =
      rw (get_or_raise-Readable env k s r) (rw e (saves _ k s r assigned _ _ fit))
  prepare-next k s r in_transit e fit =
      rw (get_or_raise-Readable env k s r) (rw e (saves _ k s r in_transit _ _ fit))
  prepare-next k s r delivered e fit =
      rw (get_or_raise-Readable env k s r) (rw e (saves _ k s r delivered _ _ fit))
  prepare-next k s r confirmed e fit =
      rw (get_or_raise-Readable env k s r) (rw e (saves _ k s r confirmed _ _ fit))

  depart-next :
      (k : ℕ) (s : Fleet) (r : Readable env k s) (status : DeliveryStatus)
      → r.row.status ≡ status
      → dates_fit r.row ≡ true
      → Conforms (next depart r.row.created_at status) k s (perform env depart k s)
  unfolding Service.mark_as_in_transit
  depart-next k s r assigned e fit =
      rw (get_or_raise-Readable env k s r) (rw e (saves _ k s r in_transit _ _ fit))
  depart-next k s r in_transit e fit =
      rw (get_or_raise-Readable env k s r) (rw e (saves _ k s r in_transit _ _ fit))
  depart-next k s r delivered e fit = rw (get_or_raise-Readable env k s r) (rw e (refl, refl))
  depart-next k s r confirmed e fit =
      rw (get_or_raise-Readable env k s r) (rw e (saves _ k s r in_transit _ _ fit))

  finish-next :
      (k : ℕ) (s : Fleet) (r : Readable env k s) (status : DeliveryStatus)
      → r.row.status ≡ status
      → dates_fit r.row ≡ true
      → Conforms (next finish r.row.created_at status) k s (perform env finish k s)
  unfolding Service.mark_as_completed
  finish-next k s r assigned e fit = rw (get_or_raise-Readable env k s r) (rw e (refl, refl))
  finish-next k s r in_transit e fit = rw (get_or_raise-Readable env k s r) (rw e (refl, refl))
  finish-next k s r delivered e fit =
      rw (get_or_raise-Readable env k s r) (rw e (saves _ k s r confirmed _ _ fit))
  finish-next k s r confirmed e fit = rw (get_or_raise-Readable env k s r) (rw e (refl, refl))

  -- For a delivery that the service can read, on a database that accepts the statuses of the code,
  -- and whose row does not arrive before it was created, as the table's CHECK demands: each of the
  -- five operations comes to what `next` says. It is refused with StatusTransitionError and no
  -- change to the deliveries; or, where the delivery is to arrive before it was created, it raises
  -- CheckViolation and changes nothing; or it returns the delivery with the status that `next`
  -- gives, the database holds it with that status, and every other delivery is as it was. So a
  -- delivered one is not received or sent out again, while a confirmed one can be.
  pub perform-next :
      (operation : Operation) (k : ℕ) (s : Fleet) (r : Readable env k s)
      → dates_fit r.row ≡ true
      → Conforms (next operation r.row.created_at r.row.status) k s (perform env operation k s)
  unfolding Service.mark_as_delivered
  perform-next receive k s r fit = receive-next k s r r.row.status refl fit
  perform-next prepare k s r fit = prepare-next k s r r.row.status refl fit
  perform-next depart k s r fit = depart-next k s r r.row.status refl fit
  perform-next finish k s r fit = finish-next k s r r.row.status refl fit
  perform-next (arrive date) k s r fit = elim (Bool-cases (leb r.row.created_at date)) [
    | inl e ↦ rw (get_or_raise-Readable env k s r) (rw e (saves _ k s r delivered _ _ e))
    | inr e ↦ rw (get_or_raise-Readable env k s r) (rw e (violates _ k s r delivered _ _ e))
  ]
