-- ===== src/Health/Laws.antt =====
-- What the readiness probe answers.
use supply_chain_tracker.Prelude.{
  ℕ, ◌≤◌, String, Bool, true, false, ◌||◌, ◌≡◌, refl, ◌∙◌, ap, Option, none, some, List, [], ◌∷◌,
  ltb, str_eq, arith, if◌then◌else◌,
}
use supply_chain_tracker.Cache.{Dict, assign, lookup}
use supply_chain_tracker.Health.Checks.{
  HealthStatus, healthy, unhealthy, degraded, ComponentHealth, HealthResponse, Checked, gives,
  throws,
}
use supply_chain_tracker.Health.Router.{
  Reply, ok, unavailable, component_of, add_status, collect, reply, ready,
}
use supply_chain_tracker.Cache.Laws.{lookup-assign_any}

-- From best to worst.
abbrev pub rank : HealthStatus → ℕ
rank healthy = 0
rank degraded = 1
rank unhealthy = 2

abbrev pub max : ℕ → ℕ → ℕ
max a b = if ltb a b then b else a

abbrev pub is_down : HealthStatus → Bool
is_down unhealthy = true
is_down healthy = false
is_down degraded = false

module _ {L : Type 0} where
  -- the rank of the worst result: 2 for a check that throws, healthy where there is none
  abbrev pub worst : List (String × Checked L) → ℕ
  worst [] = 0
  worst ((name, throws e) ∷ results) = 2
  worst ((name, gives c) ∷ results) = max (rank c.status) (worst results)

  -- a check that throws or finds its component unhealthy
  abbrev pub any_down : List (String × Checked L) → Bool
  any_down [] = false
  any_down ((name, throws e) ∷ results) = true
  any_down ((name, gives c) ∷ results) = is_down c.status || any_down results

  -- what is to be shown of a check: what it gives, or that it is unhealthy with the exception's text
  abbrev pub shown : Checked L → ComponentHealth L
  shown (gives c) = c
  shown (throws e) = record {
    status = unhealthy;
    details = some (("error", e) ∷ []);
    latency_ms = none;
  }

  -- the last result under a name
  abbrev pub last_named : String → List (String × Checked L) → Option (ComponentHealth L)
  last_named key [] = none
  last_named key ((name, result) ∷ results) = elim (last_named key results) [
    | some c ↦ some c
    | none ↦ if str_eq name key then some (shown result) else none
  ]

  abbrev pub response_of : Reply L → HealthResponse L
  response_of (ok r) = r
  response_of (unavailable r) = r

  abbrev pub is_unavailable : Reply L → Bool
  is_unavailable (ok r) = false
  is_unavailable (unavailable r) = true

rank-add_status : (c o : HealthStatus) → rank (add_status c o) ≡ max (rank c) (rank o)
rank-add_status healthy healthy = refl
rank-add_status healthy unhealthy = refl
rank-add_status healthy degraded = refl
rank-add_status unhealthy healthy = refl
rank-add_status unhealthy unhealthy = refl
rank-add_status unhealthy degraded = refl
rank-add_status degraded healthy = refl
rank-add_status degraded unhealthy = refl
rank-add_status degraded degraded = refl

down-add_status : (c o : HealthStatus) → is_down (add_status c o) ≡ (is_down c || is_down o)
down-add_status healthy healthy = refl
down-add_status healthy unhealthy = refl
down-add_status healthy degraded = refl
down-add_status unhealthy healthy = refl
down-add_status unhealthy unhealthy = refl
down-add_status unhealthy degraded = refl
down-add_status degraded healthy = refl
down-add_status degraded unhealthy = refl
down-add_status degraded degraded = refl

max_zero : (a : ℕ) → max 0 a ≡ a
max_zero a = ground arith

rank-bound : (c : HealthStatus) → rank c ≤ 2
rank-bound healthy = omega arith
rank-bound degraded = omega arith
rank-bound unhealthy = omega arith

max_bound : (a b : ℕ) → a ≤ 2 → b ≤ 2 → max a b ≤ 2
max_bound a b ha hb = ground arith

max_top : (a b : ℕ) → a ≤ 2 → b ≤ 2 → max 2 b ≡ max a 2
max_top a b ha hb = ground arith

max_rotate : (a b c : ℕ) → max (max a b) c ≡ max b (max a c)
max_rotate a b c = ground arith

or_rotate : (a b c : Bool) → ((a || b) || c) ≡ (b || (a || c))
or_rotate a b c = ground arith

given_none : {A : Type 0} (o : Option A) → (elim o [ some a ↦ some a | none ↦ none ]) ≡ o
given_none none = refl
given_none (some a) = refl

module _ {L : Type 0} where
  worst-bound : (results : List (String × Checked L)) → worst results ≤ 2
  worst-bound [] = omega arith
  worst-bound ((name, throws e) ∷ results) = omega arith
  worst-bound ((name, gives c) ∷ results) =
      max_bound (rank c.status) (worst results) (rank-bound c.status) (worst-bound results)

  collect-worst :
      (results : List (String × Checked L)) (d : Dict (ComponentHealth L)) (o : HealthStatus)
      → rank (collect results d o).1 ≡ max (rank o) (worst results)
  unfolding collect
  collect-worst [] d o = ground arith
  collect-worst ((name, throws e) ∷ results) d o =
      collect-worst results (assign name (component_of (throws e)) d) unhealthy
      ∙ max_top (rank o) (worst results) (rank-bound o) (worst-bound results)
  collect-worst ((name, gives c) ∷ results) d o =
      collect-worst results (assign name c d) (add_status c.status o)
      ∙ ap (λ n. max n (worst results)) (rank-add_status c.status o)
      ∙ max_rotate (rank c.status) (rank o) (worst results)

  collect-down :
      (results : List (String × Checked L)) (d : Dict (ComponentHealth L)) (o : HealthStatus)
      → is_down (collect results d o).1 ≡ (is_down o || any_down results)
  unfolding collect
  collect-down [] d o = ground arith
  collect-down ((name, throws e) ∷ results) d o =
      collect-down results (assign name (component_of (throws e)) d) unhealthy ∙ ground arith
  collect-down ((name, gives c) ∷ results) d o =
      collect-down results (assign name c d) (add_status c.status o)
      ∙ ap (λ b. b || any_down results) (down-add_status c.status o)
      ∙ or_rotate (is_down c.status) (is_down o) (any_down results)

  collect-lookup :
      (key : String) (results : List (String × Checked L)) (d : Dict (ComponentHealth L))
      (o : HealthStatus)
      → lookup key (collect results d o).0
        ≡ elim (last_named key results) [ some c ↦ some c | none ↦ lookup key d ]
  unfolding collect
  collect-lookup key [] d o = refl
  collect-lookup key ((name, throws e) ∷ results) d o =
      let c = component_of (throws e) in
      ground (
        arith,
        collect-lookup key results (assign name c d) unhealthy,
        lookup-assign_any key name c d,
      )
  collect-lookup key ((name, gives c) ∷ results) d o = ground (
    arith,
    collect-lookup key results (assign name c d) (add_status c.status o),
    lookup-assign_any key name c d,
  )

  response_of-reply : (o : HealthStatus) (r : HealthResponse L) → response_of (reply o r) ≡ r
  response_of-reply healthy r = refl
  response_of-reply unhealthy r = refl
  response_of-reply degraded r = refl

  unavailable-reply :
      (o : HealthStatus) (r : HealthResponse L) → is_unavailable (reply o r) ≡ is_down o
  unavailable-reply healthy r = refl
  unavailable-reply unhealthy r = refl
  unavailable-reply degraded r = refl

  -- The readiness probe: the status of its response is that of the worst component, unhealthy
  -- before degraded before healthy, where a check that throws counts as unhealthy; it answers 503
  -- exactly where some check throws or finds its component unhealthy; and the component that it
  -- gives under a name is that of the last check of this name.
  pub ready-worst :
      (service : String) (results : List (String × Checked L)) (key : String)
      → let answer = ready service results in
        (rank (response_of answer).status ≡ worst results)
        × (is_unavailable answer ≡ any_down results)
        × (lookup key (response_of answer).components ≡ last_named key results)
  unfolding ready
  ready-worst service results key =
      let o = (collect results [] healthy).1 in
      let r : HealthResponse L = record {
        service = service;
        status = o;
        components = (collect results [] healthy).0;
      } in
      (
        ap (λ x. rank x.status) (response_of-reply o r)
            ∙ collect-worst results [] healthy
            ∙ max_zero (worst results),
        unavailable-reply o r ∙ collect-down results [] healthy,
        ap (λ x. lookup key x.components) (response_of-reply o r)
            ∙ collect-lookup key results [] healthy
            ∙ given_none (last_named key results),
      )
