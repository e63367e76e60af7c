-- ===== src/Startup/Race.antt =====
-- Calls of PostgresPoolProvider that run at the same time, each as a task: it looks at `_pool`, and
-- where there is none it waits for `create_pool` before it sets `_pool`.
use supply_chain_tracker.Prelude.{
  ℕ, suc, true, false, not, ◌≡◌, ◌<◌, ◌≢◌, refl, sym, subst, ap, Option, none, some, List, [], ◌∷◌,
  ◌==◌, ==_sound, ◌∙◌, elem, arith, filter, inl, inr, Option-cases, Bool-cases,
}
use supply_chain_tracker.Outcome.{returns}
use supply_chain_tracker.Exec.{for_each, ◌>>=◌}
use supply_chain_tracker.Exec.Tasks.{interleave, turn_at}
use supply_chain_tracker.Exec.Laws.{Outcome-cases, swallow_lem, continue-pure, continue-gets}
use supply_chain_tracker.Startup.Providers.{
  Adapter, Process, Setup, create, close, set_pool, startup, shutdown, get_pool, get_pool_at,
  queue_startup, get_queue, get_queue_at, Call, start, stop, ask, ask_queue, perform, perform_all,
}
use supply_chain_tracker.Startup.PoolLaws.{queue_startup_returns}

pub data Phase : Type 0 where
  looking creating finished : Phase

module _ (env : Setup) where
  unfoldable pub turn : Phase → Process → Phase × Process
  turn looking s = (elim s.pool [ none ↦ creating | some p ↦ finished ], s)
  turn creating s = (finished, ((do p ← create env; set_pool env (some p)) s).1)
  turn finished s = (finished, s)

-- A pool that is open, but neither held by the provider nor still to be made.
abbrev pub IsLost : ℕ → Process → Type 0
IsLost p s = (elem p s.open_pools ≡ true) × (p < s.asked) × (s.pool ≢ some p)

elem-filter :
    (p q : ℕ) (l : List ℕ)
    → (p == q) ≡ false
    → elem p l ≡ true
    → elem p (filter (λ x. not (x == q)) l) ≡ true
elem-filter p q [] other h = h
elem-filter p q (x ∷ l) other h = ground (arith, elem-filter p q l other)

module _ (env : Setup) (p : ℕ) where
  startup-IsLost : (s : Process) → IsLost p s → IsLost p (startup env s).1
  unfolding startup create
  startup-IsLost s l = elim (Option-cases s.pool) [
    | inl e ↦
        rw (e, startup)
          (elim (Outcome-cases (env.create_pool s.asked)) [
            | inl (a, f) ↦
                rw (f, create)
                  (
                    ground (arith, l.0),
                    omega (arith, l.1),
                    λ h. let k : s.asked ≡ p = cc in omega (arith, k, l.1),
                  )
            | inr (x, f) ↦ rw (f, create) (l.0, omega (arith, l.1), λ h. cc h)
          ])
    | inr (q, e) ↦ rw (e, startup) l
  ]

  shutdown-IsLost : (s : Process) → IsLost p s → IsLost p (shutdown env s).1
  unfolding shutdown close
  shutdown-IsLost s l = elim (Option-cases s.pool) [
    | inl e ↦ rw (e, shutdown) l
    | inr (q, e) ↦
        rw (e, shutdown)
          (elim (Outcome-cases (env.close_pool q)) [
            | inl (a, f) ↦
                let other : (p == q) ≡ false = elim (Bool-cases (p == q)) [
                  | inl g ↦ absurd (l.2 (e ∙ ap some (sym (==_sound p q g))))
                  | inr g ↦ g
                ] in
                rw (f, close) (elem-filter p q s.open_pools other l.0, l.1, λ h. cc h)
            | inr (x, f) ↦ rw (f, close) l
          ])
  ]

  get_pool_at-IsLost : (o : Option ℕ) (s : Process) → IsLost p s → IsLost p (get_pool_at env o s).1
  get_pool_at-IsLost none s l =
      subst (IsLost p) (sym (continue-gets (λ t. t.pool) (startup env s).0 (startup env s).1))
        (startup-IsLost s l)
  get_pool_at-IsLost (some q) s l = l

  queue_startup-IsLost : (s : Process) → IsLost p s → IsLost p (queue_startup env s).1
  unfolding queue_startup
  queue_startup-IsLost s l = elim (Bool-cases env.use_kafka) [
    | inl e ↦ rw e (elim (Option-cases s.adapter) [ inl f ↦ rw f l | inr (a, f) ↦ rw f l ])
    | inr e ↦ rw e l
  ]

  get_queue_at-IsLost :
      (o : Option Adapter) (s : Process) → IsLost p s → IsLost p (get_queue_at env o s).1
  get_queue_at-IsLost none s l = rw (queue_startup_returns env s) (queue_startup-IsLost s l)
  get_queue_at-IsLost (some a) s l = l

  perform-IsLost : (call : Call) (s : Process) → IsLost p s → IsLost p (perform env call s).1
  unfolding perform get_pool get_queue
  perform-IsLost start s l = startup-IsLost s l
  perform-IsLost stop s l = shutdown-IsLost s l
  perform-IsLost ask s l =
      subst (IsLost p) (sym (continue-pure (λ o. tt) (get_pool env s).0 (get_pool env s).1))
        (get_pool_at-IsLost s.pool s l)
  perform-IsLost ask_queue s l =
      subst (IsLost p) (sym (continue-pure (λ o. tt) (get_queue env s).0 (get_queue env s).1))
        (get_queue_at-IsLost s.adapter s l)

  perform_all-IsLost :
      (calls : List Call) (s : Process) → IsLost p s → IsLost p (perform_all env calls s).1
  unfolding perform_all for_each
  perform_all-IsLost [] s l = l
  perform_all-IsLost (call ∷ calls) s l =
      rw (swallow_lem (perform env call) s)
        (perform_all-IsLost calls (perform env call s).1 (perform-IsLost call s l))

module _ (env : Setup) where
  looking-turn : (s : Process) → s.pool ≡ none → turn env looking s ≡ (creating, s)
  unfolding turn
  looking-turn s e = rw (e, turn) refl

  abbrev made : Process → Process
  made s = record s {
    pool = some s.asked;
    asked = suc s.asked;
    open_pools = s.asked ∷ s.open_pools;
  }

  creating-turn :
      (s : Process)
      → env.create_pool s.asked ≡ returns tt
      → turn env creating s ≡ (finished, made s)
  unfolding turn create
  creating-turn s e = rw (e, create) refl

  overlap :
      (s : Process)
      → s.pool ≡ none
      → env.create_pool s.asked ≡ returns tt
      → env.create_pool (suc s.asked) ≡ returns tt
      → interleave (turn env) (0 ∷ 1 ∷ 0 ∷ 1 ∷ []) (looking ∷ looking ∷ []) s
        ≡ (finished ∷ finished ∷ [], made (made s))
  unfolding interleave turn_at
  overlap s e first second =
      rw (looking-turn s e) (
        rw (looking-turn s e)
          (rw (creating-turn s first) (rw (creating-turn (made s) second) refl)))

  -- Two calls at the same time, in a process that holds no pool, where asyncpg makes the pools: if
  -- each call looks before the other has set its pool, each makes a pool, and the provider holds
  -- the second; the first stays open whatever calls the providers get from then on, one after the
  -- other.
  pub get_pool-race :
      (s : Process) (calls : List Call)
      → s.pool ≡ none
      → env.create_pool s.asked ≡ returns tt
      → env.create_pool (suc s.asked) ≡ returns tt
      → let s' = (interleave (turn env) (0 ∷ 1 ∷ 0 ∷ 1 ∷ []) (looking ∷ looking ∷ []) s).1 in
        (s'.pool ≡ some (suc s.asked))
        × (elem s.asked (perform_all env calls s').1.open_pools ≡ true)
  get_pool-race s calls e first second =
      let lost : IsLost s.asked (made (made s)) =
        (ground arith, omega arith, λ h. let k : suc s.asked ≡ s.asked = cc in omega (arith, k)) in
      rw (overlap s e first second)
        (refl, (perform_all-IsLost env s.asked calls (made (made s)) lost).0)
