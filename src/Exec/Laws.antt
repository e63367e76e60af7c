-- ===== src/Exec/Laws.antt =====
-- How caught exceptions and loops run.
use supply_chain_tracker.Prelude.{◌≡◌, ◌≢◌, ◌∙◌, ap, refl, List, [], ◌∷◌, All, ◌⊎◌, inl, inr}
use supply_chain_tracker.Outcome.{Error, Outcome, returns, raises}
use supply_chain_tracker.Exec.{continue, Exec, pure, lift, swallow, for_each, gets, ◌>>=◌, ◌>>◌}

pub Outcome-cases :
    {A : Type 0} (r : Outcome A) → ((a : A) × (r ≡ returns a)) ⊎ ((e : Error) × (r ≡ raises e))
Outcome-cases (returns a) = inl (a, refl)
Outcome-cases (raises e) = inr (e, refl)

module _ {S A : Type 0} where
  -- Whatever a call does, a handler that only logs turns it into a return from the same state.
  pub swallow->> :
      (m : Exec S A) (s s' : S) (r : Outcome A)
      → m s ≡ (r, s')
      → swallow tt (m >> pure tt) s ≡ (returns tt, s')
  swallow->> m s s' (returns a) e = rw (e, swallow) (rw e)
  swallow->> m s s' (raises x) e = rw (e, swallow) (rw e)

module _ {ℓ} {S A B : Type ℓ} where
  -- A last line that only returns leaves the state alone.
  pub continue-pure : (f : A → B) (r : Outcome A) (s : S) → (continue r (λ a. pure (f a)) s).1 ≡ s
  continue-pure f (returns a) s = refl
  continue-pure f (raises e) s = refl

module _ {ℓ} {S A B : Type ℓ} where
  -- nor does one that only reads it
  pub continue-gets : (f : S → B) (r : Outcome A) (s : S) → (continue r (λ a. gets f) s).1 ≡ s
  continue-gets f (returns a) s = refl
  continue-gets f (raises e) s = refl

-- A call that only ever raises.
abbrev pub NeverReturns : {S A : Type 0} → Exec S A → Type 0
NeverReturns {S} {A} m = (s : S) (a : A) → (m s).0 ≢ returns a

-- What `except Exception` makes of a call that returns nothing: it returns, with the same effect.
pub swallow_lem :
    {S : Type 0} (m : Exec S (Unit {0})) (s : S) → swallow tt m s ≡ (returns tt, (m s).1)
swallow_lem m s = elim (Outcome-cases (m s).0) [
  | inl (b, e) ↦ rw (e, swallow) refl
  | inr (x, e) ↦ rw (e, swallow) refl
]

-- A call that leaves a part of the state as it is.
abbrev pub Keeps : {S V A : Type 0} → (S → V) → Exec S A → Type 0
Keeps view m = (s : _) → view (m s).1 ≡ view s

module _ {S V : Type 0} (view : S → V) where
  continue-Keeps :
      {A B : Type 0} (r : Outcome A) (f : A → Exec S B) (s : S)
      → ((a : A) → r ≡ returns a → Keeps view (f a))
      → view (continue r f s).1 ≡ view s
  continue-Keeps (returns a) f s keeps = keeps a refl s
  continue-Keeps (raises e) f s keeps = refl

  pub >>=-Keeps :
      {A B : Type 0} (m : Exec S A) (f : A → Exec S B)
      → Keeps view m
      → ((a : A) → Keeps view (f a))
      → Keeps view (m >>= f)
  >>=-Keeps m f first rest s = continue-Keeps (m s).0 f (m s).1 (λ a e. rest a) ∙ first s

  -- What follows a value is reached with that value only.
  pub lift-Keeps :
      {A B : Type 0} (r : Outcome A) (f : A → Exec S B)
      → ((a : A) → r ≡ returns a → Keeps view (f a))
      → Keeps view (lift r >>= f)
  lift-Keeps r f rest s = continue-Keeps r f s rest

  swallowed : {A : Type 0} (a : A) (m : Exec S A) (s : S) → (swallow a m s).1 ≡ (m s).1
  swallowed a m s = elim (Outcome-cases (m s).0) [
    | inl (b, e) ↦ rw (e, swallow) refl
    | inr (x, e) ↦ rw (e, swallow) refl
  ]

  pub swallow-Keeps : {A : Type 0} (a : A) (m : Exec S A) → Keeps view m → Keeps view (swallow a m)
  swallow-Keeps a m keeps s = ap view (swallowed a m s) ∙ keeps s

  pub for_each-Keeps :
      {A : Type 0} (xs : List A) (body : A → Exec S (Unit {0}))
      → All (λ x. Keeps view (body x)) xs
      → Keeps view (for_each xs body)
  unfolding for_each
  for_each-Keeps [] body keeps = λ s. refl
  for_each-Keeps (x ∷ xs) body (first, rest) =
      >>=-Keeps (body x) (λ u. for_each xs body) first λ u. for_each-Keeps xs body rest

-- A call that keeps a predicate of the state.
abbrev pub Preserves : {S A : Type 0} → (S → Type 0) → Exec S A → Type 0
Preserves P m = (s : _) → P s → P (m s).1

module _ {S : Type 0} (P : S → Type 0) where
  continue-Preserves :
      {A B : Type 0} (r : Outcome A) (f : A → Exec S B) (s : S)
      → ((a : A) → Preserves P (f a))
      → P s
      → P (continue r f s).1
  continue-Preserves (returns a) f s rest h = rest a s h
  continue-Preserves (raises e) f s rest h = h

  pub >>=-Preserves :
      {A B : Type 0} (m : Exec S A) (f : A → Exec S B)
      → Preserves P m
      → ((a : A) → Preserves P (f a))
      → Preserves P (m >>= f)
  >>=-Preserves m f first rest s h = continue-Preserves (m s).0 f (m s).1 rest (first s h)

  -- for each of a list, whatever is raised is caught
  pub for_each-Preserves :
      {A : Type 0} (xs : List A) (body : A → Exec S (Unit {0}))
      → ((x : A) → Preserves P (body x))
      → Preserves P (for_each xs (λ x. swallow tt (body x)))
  unfolding for_each
  for_each-Preserves [] body keeps s h = h
  for_each-Preserves (x ∷ xs) body keeps s h =
      rw (swallow_lem (body x) s) (for_each-Preserves xs body keeps (body x s).1 (keeps x s h))
