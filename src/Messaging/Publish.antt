-- ===== src/Messaging/Publish.antt =====
-- The end of the HTTP handlers that publish an event. They call `publish_event` with the keyword
-- argument `topic`, where the port of libs/libs/messaging/ports.py takes its topics by position.
use supply_chain_tracker.Prelude.{ℕ, String, none}
use supply_chain_tracker.Outcome.{Outcome}
use supply_chain_tracker.Exec.{Exec, pure, lift, ◌>>=◌, ◌>>◌}
use supply_chain_tracker.Messaging.Codec.{Codec}
use supply_chain_tracker.Messaging.Events.{DomainEvent}
use supply_chain_tracker.Messaging.Converter.{to_event}
use supply_chain_tracker.Messaging.Base.{Event}

-- The tail of an HTTP handler: once the change is made, `to_event` of the domain event, the call of
-- `publish_event`, and the answer. What the call comes to is a parameter: the queue has no part in
-- the service's database `S`.
module _ {S : Type 0} (uuid4 now : Exec S ℕ) (c : Codec)
    (publish : Event → String → Outcome (Unit {0})) (topic : String) where
  unfoldable pub send : DomainEvent → Exec S (Unit {0})
  send domain_event = do
    id ← uuid4
    t ← now
    lift (publish (to_event c id t domain_event none) topic)

  unfoldable pub announced :
      {A B : Type 0} → Exec S A → (A → Exec S DomainEvent) → (A → B) → Exec S B
  announced change event answer = do a ← change; e ← event a; send e; pure (answer a)
