-- ===== src/Messaging/KafkaLaws.antt =====
-- What the retries of libs/libs/messaging/kafka.py come to.
use supply_chain_tracker.Prelude.{
  ℕ, zero, suc, ◌+◌, ◌-◌, ◌*◌, ◌^◌, ◌<◌, ◌≡◌, refl, ◌==◌, true, false, arith, String, Option, none,
  some, List, [], ◌∷◌, ◌++◌, ap, sym, subst, ◌∙◌,
}
use supply_chain_tracker.Outcome.{Error, returns, raises, kafka_error}
use supply_chain_tracker.Messaging.Value.{Fields}
use supply_chain_tracker.Messaging.Kafka.{
  Record, Kafka, send_and_wait, get_producer, attempts, send_with_retry,
}
use native.Mathlib.Omega.{pow_step}
use native.Mathlib.Numerals.{unary_clauses}

-- The client fails calls number `first` to `first + k - 1` with a KafkaError.
unfoldable pub Refuses : (ℕ → Option Error) → ℕ → ℕ → Type 0
Refuses answers first k = (i : ℕ) → i < k → answers (first + i) ≡ some kafka_error

module _ (answers : ℕ → Option Error) where
  Refuses-now : (first k : ℕ) → Refuses answers first (suc k) → answers first ≡ some kafka_error
  unfolding Refuses
  Refuses-now first k f = ap answers (omega arith) ∙ f 0 (omega arith)

  Refuses-next : (first k : ℕ) → Refuses answers first (suc k) → Refuses answers (suc first) k
  unfolding Refuses
  Refuses-next first k f i i<k = ap answers (omega arith) ∙ f (suc i) (omega arith)

-- the client after calls that took it to call number n, time `t` and the log `l`
abbrev moved : Kafka → ℕ → ℕ → List Record → Kafka
moved s n t l = record s { calls = n; slept = t; log = l }

moved-eq :
    (s : Kafka) (n n' t t' : ℕ) (l : List Record)
    → n ≡ n'
    → t ≡ t'
    → moved s n t l ≡ moved s n' t' l
moved-eq s n n' t t' l p q = ap (λ a. moved s a t l) p ∙ ap (λ a. moved s n' a l) q

send-refused :
    (r : Record) (s : Kafka)
    → s.answers s.calls ≡ some kafka_error
    → send_and_wait r s ≡ (raises kafka_error, moved s (suc s.calls) s.slept s.log)
unfolding send_and_wait
send-refused r s e = rw (e, send_and_wait) refl

send-acknowledged :
    (r : Record) (s : Kafka)
    → s.answers s.calls ≡ none
    → send_and_wait r s ≡ (returns tt, moved s (suc s.calls) s.slept (s.log ++ r ∷ []))
unfolding send_and_wait
send-acknowledged r s e = rw (e, send_and_wait) refl

module _ (max_retries initial_backoff : ℕ) where
  -- The time slept for k failures from the attempt `done + 1` on.
  unfoldable sleeps : ℕ → ℕ → ℕ
  sleeps done zero = 0
  sleeps done (suc k) = initial_backoff * 2 ^ done + sleeps (suc done) k

  double_lem : (n : ℕ) → initial_backoff * 2 ^ suc n ≡ 2 * (initial_backoff * 2 ^ n)
  double_lem n = rw (pow_step 2 n) (grind arith)

  sleeps_closed :
      (done k : ℕ) → sleeps done k + initial_backoff * 2 ^ done ≡ initial_backoff * 2 ^ (done + k)
  unfolding sleeps
  sleeps_closed done zero = simp unary_clauses (omega arith)
  sleeps_closed done (suc k) =
      let double : initial_backoff * 2 ^ suc done ≡ 2 * (initial_backoff * 2 ^ done) =
        double_lem done in
      let next : initial_backoff * 2 ^ (suc done + k) ≡ initial_backoff * 2 ^ (done + suc k) =
        ap (λ n. initial_backoff * 2 ^ n) (omega arith) in
      let rest = sleeps_closed (suc done) k in omega arith

  sleeps_lem : (k : ℕ) → sleeps 0 k ≡ initial_backoff * 2 ^ k - initial_backoff
  sleeps_lem k =
      let total : sleeps 0 k + initial_backoff * 1 ≡ initial_backoff * 2 ^ (0 + k) =
        sleeps_closed 0 k in
      let start : initial_backoff * 2 ^ (0 + k) ≡ initial_backoff * 2 ^ k =
        ap (λ n. initial_backoff * 2 ^ n) (omega arith) in
      omega arith

  attempts-again :
      (r : Record) (done left : ℕ) (s : Kafka)
      → s.answers s.calls ≡ some kafka_error
      → (suc done == max_retries) ≡ false
      → attempts max_retries initial_backoff r done (suc left) s
        ≡ attempts max_retries initial_backoff r
            (suc done)
            left
            (moved s (suc s.calls) (s.slept + initial_backoff * 2 ^ done) s.log)
  unfolding attempts
  attempts-again r done left s e n =
      rw (send-refused r s e, attempts) (rw (send-refused r s e) (rw n refl))

  attempts-success :
      (r : Record) (done left k : ℕ) (s : Kafka)
      → k < left
      → done + left ≡ max_retries
      → Refuses s.answers s.calls k
      → s.answers (s.calls + k) ≡ none
      → attempts max_retries initial_backoff r done left s
        ≡ (returns tt, moved s (s.calls + suc k) (s.slept + sleeps done k) (s.log ++ r ∷ []))
  unfolding attempts sleeps
  attempts-success r done zero k s lt e f ok = absurd (omega arith)
  attempts-success r done (suc left) zero s lt e f ok =
      let now : s.calls ≡ s.calls + 0 = omega arith in
      let sent = send-acknowledged r s (ap s.answers now ∙ ok) in
      rw (sent, attempts)
        (rw sent (ap (λ n. (returns tt, n)) (moved-eq s _ _ _ _ _ (omega arith) (omega arith))))
  attempts-success r done (suc left) (suc k) s lt e f ok =
      let next : suc s.calls + k ≡ s.calls + suc k = omega arith in
      attempts-again r done left s (Refuses-now s.answers s.calls k f) (ground arith)
      ∙ attempts-success r (suc done) left k _ (omega arith) (omega arith)
          (Refuses-next s.answers s.calls k f) (ap s.answers next ∙ ok)
      ∙ ap (λ n. (returns tt, n)) (moved-eq s _ _ _ _ _ (omega arith) (omega arith))

  attempts-exhausted :
      (r : Record) (done left : ℕ) (s : Kafka)
      → done + suc left ≡ max_retries
      → Refuses s.answers s.calls (suc left)
      → attempts max_retries initial_backoff r done (suc left) s
        ≡ (raises kafka_error, moved s (s.calls + suc left) (s.slept + sleeps done left) s.log)
  unfolding attempts sleeps
  attempts-exhausted r done zero s e f =
      let refused = send-refused r s (Refuses-now s.answers s.calls 0 f) in
      let last : (suc done == max_retries) ≡ true = ground arith in
      rw (refused, attempts)
        (rw refused (
          rw last
            (ap (λ n. (raises kafka_error, n)) (moved-eq s _ _ _ _ _ (omega arith) (omega arith)))))
  attempts-exhausted r done (suc left) s e f =
      attempts-again r done (suc left) s (Refuses-now s.answers s.calls (suc left) f) (ground arith)
      ∙ attempts-exhausted r (suc done) left _ (omega arith)
          (Refuses-next s.answers s.calls (suc left) f)
      ∙ ap (λ n. (raises kafka_error, n)) (moved-eq s _ _ _ _ _ (omega arith) (omega arith))

  -- the client with a producer
  abbrev started : Kafka → Kafka
  started s = record s { has_producer = true }

  -- If the client fails k calls with a KafkaError, k below `max_retries`, and acknowledges the
  -- next, then `_send_with_retry` returns with the record sent once, after k + 1 calls and after
  -- sleeping `initial_backoff` times 2^k - 1.
  pub send_with_retry-success :
      (topic key : String) (value : Fields) (k : ℕ) (s : Kafka)
      → k < max_retries
      → Refuses s.answers s.calls k
      → s.answers (s.calls + k) ≡ none
      → let r : Record = record { topic = topic; value = value; key = key } in
        send_with_retry max_retries initial_backoff topic value key s ≡ (
          returns tt,
          record s {
            calls = s.calls + suc k;
            log = s.log ++ r ∷ [];
            slept = s.slept + (initial_backoff * 2 ^ k - initial_backoff);
            has_producer = true;
          },
        )
  unfolding send_with_retry get_producer
  send_with_retry-success topic key value k s lt f ok =
      attempts-success (record { topic = topic; value = value; key = key }) 0 max_retries k
        (started s) lt (omega arith) f ok
      ∙ ap
          (λ t. (
            returns tt,
            moved (started s) (s.calls + suc k) (s.slept + t)
                (s.log ++ record { topic = topic; value = value; key = key } ∷ []),
          ))
          (sleeps_lem k)

  -- If the client fails `max_retries` calls with a KafkaError, `max_retries` not 0, then
  -- `_send_with_retry` raises KafkaError with nothing sent, after exactly `max_retries` calls, and
  -- does not sleep after the last.
  pub send_with_retry-exhausted :
      (topic key : String) (value : Fields) (last : ℕ) (s : Kafka)
      → max_retries ≡ suc last
      → Refuses s.answers s.calls max_retries
      → send_with_retry max_retries initial_backoff topic value key s ≡ (
        raises kafka_error,
        record s {
          calls = s.calls + max_retries;
          slept = s.slept + (initial_backoff * 2 ^ last - initial_backoff);
          has_producer = true;
        },
      )
  unfolding send_with_retry get_producer
  send_with_retry-exhausted topic key value last s e f =
      let e' : 0 + suc last ≡ max_retries = omega arith in
      subst
        (λ m.
          attempts max_retries initial_backoff (record { topic = topic; value = value; key = key })
            0 m (started s)
          ≡ (
            raises kafka_error,
            moved (started s) (s.calls + m)
                (s.slept + (initial_backoff * 2 ^ last - initial_backoff)) s.log,
          ))
        (sym e)
        (attempts-exhausted (record { topic = topic; value = value; key = key }) 0 last (started s)
            e' (subst (Refuses s.answers s.calls) e f)
          ∙ ap
              (λ t.
                (raises kafka_error, moved (started s) (s.calls + suc last) (s.slept + t) s.log))
              (sleeps_lem last))
