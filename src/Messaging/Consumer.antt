-- ===== src/Messaging/Consumer.antt =====
-- `NewConsumer` and `Close` of messaging/consumer.go, over the franz-go client.
use Prim.Native.String.{◌++◌ as str_append}
use helix_fnd.Prelude.{String, List, [], ◌∷◌, Option, none, some}
use helix_fnd.Messaging.Env.{Err, ConsumerConfig, with_defaults}

-- The options of the group consumer, which commits by hand and blocks rebalances from poll to poll.
pub record GroupOptions : Type 0 where
  pub seed_brokers : List String
  pub consumer_group : String
  pub consume_topics : List String

pub data NewConsumer : Type 0 where
  new_one : ConsumerConfig → NewConsumer
  not_created : Err → NewConsumer

pub record GroupClient (W : Type 0) : Type 0 where
  pub new_client : GroupOptions → W → W × Option Err
  pub close : W → W

abbrev pub group_options : ConsumerConfig → GroupOptions
group_options cfg = record {
  seed_brokers = cfg.brokers;
  consumer_group = cfg.group_id;
  consume_topics = cfg.topic ∷ [];
}

module _ {W : Type 0} (client : GroupClient W) where
  consumer_of : ConsumerConfig → W × Option Err → W × NewConsumer
  consumer_of cfg (w, none) = (w, new_one cfg)
  consumer_of cfg (w, some e) = (w, not_created (str_append "failed to create franz-go client: " e))

  unfoldable pub new_consumer : ConsumerConfig → W → W × NewConsumer
  unfolding consumer_of
  new_consumer cfg w =
      consumer_of (with_defaults cfg) (client.new_client (group_options (with_defaults cfg)) w)

  abbrev pub close_consumer : W → W
  close_consumer w = client.close w
