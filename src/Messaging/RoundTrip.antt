-- ===== src/Messaging/RoundTrip.antt =====
-- Encoding a message and decoding it again, and the order in which a consumer sees messages.
use supply_chain_tracker.Prelude.{
  ℕ, ◌+◌, String, ◌≡◌, refl, Option, none, some, List, [], ◌∷◌, ◌++◌, drop, length, arith,
  append_assoc, append-nil,
}
use text.Mathlib.TextPositions.{eq_refl}
use supply_chain_tracker.Outcome.{returns}
use supply_chain_tracker.Messaging.Codec.{Codec}
use supply_chain_tracker.Messaging.Base.{
  Event, Command, Json, to_json, event_from_json, to_dict, event_from_dict, command_from_dict,
  optional_text, optional_uuid,
}
use supply_chain_tracker.Messaging.Memory.{
  Broker, Message, command_dict, publish_command, deliver, consume_command_turn,
}

optional_uuid-optional_text :
    (c : Codec) (o : Option ℕ) → optional_uuid c (some (optional_text c o)) ≡ returns o
optional_uuid-optional_text c none = refl
optional_uuid-optional_text c (some u) = rw (c.show_uuid_nonempty u) (rw (c.parse-show_uuid u))

-- An event that is written as a dictionary is read back unchanged.
pub event_from_dict-to_dict : (c : Codec) (e : Event) → event_from_dict c (to_dict c e) ≡ returns e
unfolding event_from_dict to_dict
event_from_dict-to_dict c e =
    simp (c.parse-show_uuid, c.parse-show_time, optional_uuid-optional_text)

-- An event that is written as a text of JSON is read back unchanged, where json reads its dictionary
-- as it wrote it.
pub event_from_json-to_json :
    (c : Codec) (json : Json) (e : Event) (s : String)
    → to_json c json e ≡ returns s
    → json.loads s ≡ returns (to_dict c e)
    → event_from_json c json s ≡ returns e
unfolding event_from_json
event_from_json-to_json c json e s written read = rw read (event_from_dict-to_dict c e)

-- A command that is published as a dictionary is read back unchanged.
pub command_from_dict-command_dict :
    (c : Codec) (m : Command) → command_from_dict c (command_dict c m) ≡ returns m
unfolding command_from_dict
command_from_dict-command_dict c m = simp (c.parse-show_uuid, optional_uuid-optional_text)

pub drop-length {ℓ} : {A : Type ℓ} (xs ys : List A) → drop (length xs) (xs ++ ys) ≡ ys
drop-length [] ys = refl
drop-length (x ∷ xs) ys = drop-length xs ys

-- Commands published one after another to one topic, each at its instant.
abbrev pub publish_commands : Codec → String → List (Command × ℕ) → Broker → Broker
publish_commands c topic [] b = b
publish_commands c topic ((m, now) ∷ ms) b =
    publish_commands c topic ms (publish_command c m ((topic, now) ∷ []) b)

abbrev pub sent : List (Command × ℕ) → List Command
sent [] = []
sent ((m, now) ∷ ms) = m ∷ sent ms

module _ (c : Codec) (topic : String) where
  abbrev message : Command → ℕ → Message
  message m now = record {
    key = c.show_uuid m.aggregate_id;
    value = command_dict c m;
    topic = topic;
    timestamp = now;
  }

  abbrev messages : List (Command × ℕ) → List Message
  messages [] = []
  messages ((m, now) ∷ ms) = message m now ∷ messages ms

  commands_storage-publish_command :
      (m : Command) (now : ℕ) (b : Broker)
      → (publish_command c m ((topic, now) ∷ []) b).commands_storage topic
        ≡ b.commands_storage topic ++ message m now ∷ []
  unfolding publish_command
  commands_storage-publish_command m now b = rw (eq_refl topic)

  commands_storage-publish_commands :
      (ms : List (Command × ℕ)) (b : Broker)
      → (publish_commands c topic ms b).commands_storage topic
        ≡ b.commands_storage topic ++ messages ms
  commands_storage-publish_commands [] b = rw append-nil
  commands_storage-publish_commands ((m, now) ∷ ms) b =
      rw (commands_storage-publish_commands ms (publish_command c m ((topic, now) ∷ []) b))
        (rw (commands_storage-publish_command m now b) (rw append_assoc))

  deliver-messages :
      (ms : List (Command × ℕ)) (k : ℕ)
      → deliver (command_from_dict c) (messages ms) k
        ≡ record { yielded = sent ms; offset = k + length ms; failure = none }
  unfolding deliver
  deliver-messages [] k = ground arith
  deliver-messages ((m, now) ∷ ms) k =
      rw (command_from_dict-command_dict c m, deliver)
        (rw (deliver-messages ms (k + 1)) (ground arith))

  -- A consumer that has read a topic to its end, and then takes one more turn after any commands
  -- were published to the topic, yields exactly these commands, unchanged and in their order, and
  -- has read the topic to its end again.
  pub consume_command_turn-publish_commands :
      (ms : List (Command × ℕ)) (b : Broker)
      → consume_command_turn c topic
          (length (b.commands_storage topic))
          (publish_commands c topic ms b)
        ≡ record {
          yielded = sent ms;
          offset = length (b.commands_storage topic) + length ms;
          failure = none;
        }
  unfolding consume_command_turn
  consume_command_turn-publish_commands ms b = rw (commands_storage-publish_commands ms b) (
      rw (drop-length (b.commands_storage topic) (messages ms))
        (deliver-messages ms (length (b.commands_storage topic))))
