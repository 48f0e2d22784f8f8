-- ===== src/Messaging/Producer.antt =====
-- messaging/producer.go, over the franz-go client and the OpenTelemetry propagator.
pub mod Tracing
mod Tests
use Prim.Native.String.{◌++◌ as str_append}
use helix_fnd.Prelude.{String, List, [], ◌∷◌, ◌++◌, Option, none, some, foldl}
use helix_fnd.Messaging.Env.{Bytes, Err}

-- What the code fills of a `kgo.Record`.
pub record ProducedRecord : Type 0 where
  pub topic : String
  pub key : Bytes
  pub value : Bytes
  pub headers : List (String × Bytes)

pub record Client (W Ctx : Type 0) : Type 0 where
  pub new_client : List String → W → W × Option Err
  pub ping : W → W × Option Err
  pub close : W → W
  pub inject : Ctx → List (String × Bytes)  -- the carrier's entries, in the order they are ranged over
  pub produce_sync : Ctx → ProducedRecord → W → W × Option Err  -- `FirstErr` of the results
  pub log_closing : W → W
  pub log_failure : String → Bytes → Err → W → W

module _ {W Ctx : Type 0} (client : Client W Ctx) where
  pinged : W × Option Err → W × Option Err
  pinged (w, none) = (w, none)
  pinged (w, some e) = (client.close w, some (str_append "kafka: failed to ping brokers: " e))

  made : W × Option Err → W × Option Err
  unfolding pinged
  made (w, some e) = (w, some (str_append "kafka: failed to create franz-go client: " e))
  made (w, none) = pinged (client.ping w)

  -- `NewProducer`: `none` is a producer, and otherwise the error.
  unfoldable pub new_producer : List String → W → W × Option Err
  unfolding made
  new_producer brokers w = made (client.new_client brokers w)

  -- The loop over the carrier.
  unfoldable pub with_headers : List (String × Bytes) → ProducedRecord → ProducedRecord
  with_headers [] rec = rec
  with_headers (h ∷ hs) rec = with_headers hs (record rec { headers = rec.headers ++ (h ∷ []) })

  unfoldable pub produced : Ctx → String → Bytes → Bytes → ProducedRecord
  produced ctx topic key payload =
      with_headers (client.inject ctx)
        (record { topic = topic; key = key; value = payload; headers = [] })

  publish_result : String → Bytes → W × Option Err → W × Option Err
  publish_result topic key (w, none) = (w, none)
  publish_result topic key (w, some e) =
      (client.log_failure topic key e w, some (str_append "kafka publish failed: " e))

  unfoldable pub publish : Ctx → String → Bytes → Bytes → W → W × Option Err
  unfolding publish_result
  publish ctx topic key payload w =
      publish_result topic key (client.produce_sync ctx (produced ctx topic key payload) w)

  abbrev pub close_producer : W → W
  close_producer w = client.close (client.log_closing w)
