-- ===== src/Blockchain/MainLaws.antt =====
-- What the blockchain service leaves open when it stops.
use supply_chain_tracker.Prelude.{Bool, true, false, ◌&&◌, ◌||◌, ◌≡◌, refl, inl, inr, arith}
use supply_chain_tracker.Outcome.{Outcome, returns, raises}
use supply_chain_tracker.Exec.Laws.{Outcome-cases}
use supply_chain_tracker.Blockchain.Main.{Open, Setup, prepare, with_queue, main}

abbrev pub is_ok : Outcome (Unit {0}) → Bool
is_ok (returns u) = true
is_ok (raises e) = false

abbrev pub is_bad : Outcome (Unit {0}) → Bool
is_bad (returns u) = false
is_bad (raises e) = true

abbrev pub closed : Open
closed = record { redis = false; pool = false; producer = false }

-- Where asyncpg makes the pool, and the client of Redis and the pool can be closed: however the
-- gateway, the queue, the workers and the metrics server end, both are closed at the end; the
-- producer is left open exactly where the gateway is there and the producer can not be started or
-- not be stopped; and `main` returns exactly where none of them raises.
pub main-closes :
    (env : Setup)
    → env.create_pool ≡ returns tt
    → env.close_redis ≡ returns tt
    → env.close_pool ≡ returns tt
    → let (result, s) = main env closed in
      (s.redis ≡ false)
      × (s.pool ≡ false)
      × (s.producer
          ≡ (is_ok (prepare env) && (is_bad env.start_producer || is_bad env.stop_producer)))
      × (is_ok result ≡ (
          is_ok (prepare env)
          && (is_ok env.start_producer && (is_ok env.work && is_ok env.stop_producer))))
unfolding main with_queue
main-closes env made redis pool = elim (Outcome-cases (prepare env)) [
  | inr (e, h) ↦ rw (made, main) (rw h (rw redis (rw pool (refl, refl, refl, refl))))
  | inl (u, h) ↦
      rw (made, main)
        (rw h (elim (Outcome-cases env.start_producer) [
          | inr (e, k) ↦ rw (k, with_queue) (rw redis (rw pool (refl, refl, refl, refl)))
          | inl (v, k) ↦
              rw (k, with_queue)
                (elim (Outcome-cases env.stop_producer) [
                  | inr (e, l) ↦ rw l (rw redis (rw pool (refl, refl, refl, ground arith)))
                  | inl (w, l) ↦ rw l (elim (Outcome-cases env.work) [
                    | inr (e, m) ↦ rw m (rw redis (rw pool (refl, refl, refl, refl)))
                    | inl (x, m) ↦ rw m (rw redis (rw pool (refl, refl, refl, refl)))
                  ])
                ])
        ]))
]
