-- ===== src/Exec.antt =====
-- A coroutine of a service: it reads and writes the state `S` of its process and of its database,
-- and returns or raises. What was written before a raise stays written, since every statement of
-- the repositories commits on its own (no transaction is opened in the source).
pub mod Laws
pub mod Tasks
use supply_chain_tracker.Prelude.{List, [], ◌∷◌, Option, none, some}
use supply_chain_tracker.Outcome.{Error, Outcome, returns, raises}

abbrev pub Exec {ℓ} : Type ℓ → Type ℓ → Type ℓ
Exec S A = S → Outcome A × S

module _ {ℓ} {S A : Type ℓ} where
  abbrev pub pure : A → Exec S A
  pure a s = (returns a, s)

  abbrev pub raise : Error → Exec S A
  raise e s = (raises e, s)

  abbrev pub lift : Outcome A → Exec S A
  lift r s = (r, s)

  abbrev pub gets : (S → A) → Exec S A
  gets f s = (returns (f s), s)

  -- `if x is None: raise e`
  abbrev pub or_raise : Option A → Error → Exec S A
  or_raise none e = raise e
  or_raise (some a) e = pure a

  -- `except Exception:` a handler that only logs and goes on
  abbrev pub swallow : A → Exec S A → Exec S A
  swallow a m s =
      let (r, s') = m s in elim r [ returns b ↦ (returns b, s') | raises e ↦ (returns a, s') ]

module _ {ℓ} {S A B : Type ℓ} where
  abbrev pub continue : Outcome A → (A → Exec S B) → Exec S B
  continue (returns a) f s = f a s
  continue (raises e) f s = (raises e, s)

  infixl 5 ◌>>=◌ ◌>>◌
  abbrev pub ◌>>=◌ : Exec S A → (A → Exec S B) → Exec S B
  ◌>>=◌ m f s = let (r, s') = m s in continue r f s'

  abbrev pub ◌>>◌ : Exec S A → Exec S B → Exec S B
  m >> n = m >>= λ _. n

-- `for x in xs: body(x)`, where the body returns nothing
unfoldable pub for_each {ℓ} : {S A : Type ℓ} → List A → (A → Exec S (Unit {ℓ})) → Exec S (Unit {ℓ})
for_each [] body = pure tt
for_each (x ∷ xs) body = body x >> for_each xs body
