-- ===== src/System/Queue.antt =====
-- The coordinator over the in-memory queue, and the consumers of its command topics.
use supply_chain_tracker.Prelude.{
  ℕ, suc, String, ◌≡◌, refl, ◌∙◌, Option, none, some, List, [], ◌∷◌, ◌++◌, str_eq, if◌then◌else◌,
  length, ◌+◌, arith, append_assoc, append-nil, Bool-cases, inl, inr,
}
use supply_chain_tracker.Outcome.{Error, returns}
use supply_chain_tracker.Messaging.Codec.{Codec}
use supply_chain_tracker.Messaging.Base.{Event, Command, command_from_dict}
use supply_chain_tracker.Messaging.Memory.{
  Message, publish_command, command_dict, deliver, consume_command_turn,
}
use supply_chain_tracker.Messaging.RoundTrip.{command_from_dict-command_dict, drop-length}
use supply_chain_tracker.Saga.Entity.{SagaInstance, started}
use supply_chain_tracker.Saga.Repository.{Coordinator, Setup}
use supply_chain_tracker.Saga.Laws.{saga_at, Accepts}
use supply_chain_tracker.Saga.Worker.{handle_failure_event}
use supply_chain_tracker.Saga.Plan.{Order, orders, send, send_all}
use supply_chain_tracker.Saga.Compensation.{handle_failure_event-compensates}

-- The coordinator's setup over the in-memory queue.
abbrev pub on_memory : Codec → (String → Option Error) → Setup
on_memory c violation = record {
  codec = c;
  violation = violation;
  publish_command =
      λ command topic t b. (returns tt, publish_command c command ((topic, t) ∷ []) b);
}

module _ (c : Codec) (violation : String → Option Error) (topic : String) where
  -- The commands of some orders that go to the topic, with the identifiers that they draw.
  abbrev pub commands_to : List Order → Coordinator → List Command
  commands_to [] s = []
  commands_to (o ∷ os) s =
      let rest = commands_to os (send (on_memory c violation) o s) in
      if str_eq topic o.topic then o.command (s.uuids s.drawn) ∷ rest else rest

  abbrev message : Order → Coordinator → Message
  message o s =
      let command = o.command (s.uuids s.drawn) in
      record {
        key = c.show_uuid command.aggregate_id;
        value = command_dict c command;
        topic = o.topic;
        timestamp = s.clock s.ticks;
      }

  abbrev messages_to : List Order → Coordinator → List Message
  messages_to [] s = []
  messages_to (o ∷ os) s =
      let rest = messages_to os (send (on_memory c violation) o s) in
      if str_eq topic o.topic then message o s ∷ rest else rest

  commands_storage-send_all :
      (os : List Order) (s : Coordinator)
      → (send_all (on_memory c violation) os s).broker.commands_storage topic
        ≡ s.broker.commands_storage topic ++ messages_to os s
  unfolding send_all publish_command
  commands_storage-send_all [] s = rw append-nil refl
  commands_storage-send_all (o ∷ os) s =
      commands_storage-send_all os (send (on_memory c violation) o s)
      ∙ elim (Bool-cases (str_eq topic o.topic)) [
        | inl e ↦ rw e (rw append_assoc refl)
        | inr e ↦ rw e refl
      ]

  deliver-messages_to :
      (os : List Order) (s : Coordinator) (k : ℕ)
      → deliver (command_from_dict c) (messages_to os s) k ≡ record {
        yielded = commands_to os s;
        offset = k + length (commands_to os s);
        failure = none;
      }
  unfolding deliver
  deliver-messages_to [] s k = ground arith
  deliver-messages_to (o ∷ os) s k = elim (Bool-cases (str_eq topic o.topic)) [
    | inl e ↦ rw e (
        rw (command_from_dict-command_dict c (o.command (s.uuids s.drawn)), deliver)
          (rw (deliver-messages_to os (send (on_memory c violation) o s) (k + 1)) (ground arith)))
    | inr e ↦ rw e (deliver-messages_to os (send (on_memory c violation) o s) k)
  ]

  -- A failure event of a started saga, where the table takes every status: a worker that had read a
  -- command topic to its end before the event was handled, and then takes one more turn, yields
  -- exactly the commands that the compensation table gives for the event and that go to this topic,
  -- unchanged and in their order.
  pub consume_command_turn-handle_failure_event :
      Accepts (on_memory c violation)
      → (event : Event) (s : Coordinator) (saga : SagaInstance)
      → event.correlation_id ≡ some saga.saga_id
      → saga_at saga.saga_id s ≡ some saga
      → saga.status ≡ started
      → let sent = commands_to (orders c saga event) (record s { ticks = suc s.ticks }) in
        consume_command_turn c topic
          (length (s.broker.commands_storage topic))
          (handle_failure_event (on_memory c violation) event s).1.broker
        ≡ record {
          yielded = sent;
          offset = length (s.broker.commands_storage topic) + length sent;
          failure = none;
        }
  unfolding consume_command_turn
  consume_command_turn-handle_failure_event ok event s saga correlated found live =
      let old = s.broker.commands_storage topic in
      let s₁ : Coordinator = record s { ticks = suc s.ticks } in
      let os = orders c saga event in
      let (done, failed, others, broker) =
        handle_failure_event-compensates (on_memory c violation) ok (λ m t u b. refl) event s saga
          correlated found live in
      rw broker (
        rw (commands_storage-send_all os s₁)
          (rw (drop-length old (messages_to os s₁)) (deliver-messages_to os s₁ (length old))))
