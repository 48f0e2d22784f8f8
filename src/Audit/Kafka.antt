-- ===== src/Audit/Kafka.antt =====
-- audit/kafka_logger.go, over the franz-go client. `marshal` is the JSON encoder, with its text
-- or its error.
use Prim.Native.String.{◌++◌ as str_append}
use text.Mathlib.Text.{◌==◌ as str_eq}
use helix_fnd.Prelude.{◌⊎◌, inl, inr, String, List, Option, none, some, if◌then◌else◌}
use helix_fnd.Audit.Event.{Event}

pub record AuditRecord : Type 0 where
  pub topic : String
  pub value : String

pub record AuditClient (W : Type 0) : Type 0 where
  pub new_client : List String → W → W × Option String
  pub ping : W → W × Option String
  pub close : W → W
  -- `Produce`, with what its callback does to the surroundings when the outcome is known.
  pub produce : AuditRecord → (Option String → W → W) → W → W
  pub printf : String → W → W

-- What the constructor returns: a logger for a topic, or an error.
pub data NewLogger : Type 0 where
  new_logger : String → NewLogger
  not_created : String → NewLogger

unfoldable pub topic_or_default : String → String
topic_or_default topic = if str_eq topic "" then "system.audit.events" else topic

module _ {W : Type 0} (client : AuditClient W) where
  connected : String → W × Option String → W × NewLogger
  connected topic (w, none) = (w, new_logger topic)
  connected topic (w, some e) =
      (client.close w, not_created (str_append "audit: failed to connect to brokers: " e))

  created : String → W × Option String → W × NewLogger
  unfolding connected
  created topic (w, some e) =
      (w, not_created (str_append "audit: failed to create franz-go client: " e))
  created topic (w, none) = connected topic (client.ping w)

  unfoldable pub new_kafka_logger : List String → String → W → W × NewLogger
  unfolding created
  new_kafka_logger brokers topic w = created (topic_or_default topic) (client.new_client brokers w)

  -- The callback: a failure is printed.
  on_produced : Option String → W → W
  on_produced none w = w
  on_produced (some e) w = client.printf (str_append "audit: failed to send log to kafka: " e) w

  produced : String → String ⊎ String → W → W × Option String
  unfolding on_produced
  produced topic (inr e) w = (w, some (str_append "audit: marshal failed: " e))
  produced topic (inl payload) w =
      (client.produce (record { topic = topic; value = payload }) on_produced w, none)

  -- `KafkaLogger.Log`: the record is handed over, and the outcome of its delivery is not waited for.
  unfoldable pub log_to_kafka :
      {V : Type 0} → (Event V → String ⊎ String) → String → Event V → W → W × Option String
  unfolding produced
  log_to_kafka marshal topic event w = produced topic (marshal event) w

  abbrev pub close_kafka_logger : W → W
  close_kafka_logger w = client.close w
