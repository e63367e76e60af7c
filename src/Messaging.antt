-- ===== src/Messaging.antt =====
-- libs/libs/messaging: messages, the commands of the saga, and the in-memory adapter.
pub mod Value
pub mod Codec
pub mod Base
pub mod Commands
pub mod Memory
pub mod RoundTrip
pub mod Events
pub mod Converter
pub mod EventLaws
pub mod Kafka
pub mod KafkaLaws
pub mod Publish
pub mod Consumers
pub mod ConsumerLaws
