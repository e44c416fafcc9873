-- ===== src/Outbox/Producer.antt =====
-- adapters/secondary/kafka/producer.go: what the outbox worker sends by.
use cbtraining.Base.{String, Bool}
use cbtraining.Outbox.{Message}

-- The fields of `kafka.Message` that the producer sets.
pub record KafkaMessage : Type 0 where
  pub topic : String
  pub key : String
  pub value : String

-- `Send`: whether `WriteMessages` succeeds on the message.
unfoldable pub send : (KafkaMessage → Bool) → Message → Bool
send write msg = write (record { topic = msg.topic; key = msg.key; value = msg.value })
