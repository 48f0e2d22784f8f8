-- ===== src/Messaging/Producer/Tests.antt =====
-- A publisher in a trace, and a consumer in none.
use helix_fnd.Prelude.{
  ℕ, ◌≡◌, refl, Bool, true, false, String, List, [], ◌∷◌, Option, none, some, at_key, ap,
}
use helix_fnd.Messaging.Env.{Bytes, Env, KafkaRecord, handler_returns, poll_failed}
use helix_fnd.Messaging.Loop.{carrier}
use helix_fnd.Messaging.Producer.{Client, produced, with_headers}
use helix_fnd.Messaging.Producer.Tracing.{IsMap, IsPropagator, trace_of-produced}

-- A context is its trace, if it has one.
abbrev inject : Option Bytes → List (String × Bytes)
inject none = []
inject (some id) = ("traceparent", id) ∷ ("tracestate", 9 ∷ []) ∷ []

abbrev found_or : Option Bytes → Option Bytes → Option Bytes
found_or (some id) ctx = some id
found_or none ctx = ctx

abbrev extract : Option Bytes → List (String × Bytes) → Option Bytes
extract ctx m = found_or (at_key m "traceparent") ctx

abbrev is_traced : Option Bytes → Bool
is_traced none = false
is_traced (some id) = true

abbrev trace_of : Option Bytes → Option Bytes
trace_of ctx = ctx

abbrev client : Client ℕ (Option Bytes)
client = record {
  new_client = λ brokers n. (n, none);
  ping = λ n. (n, none);
  close = λ n. n;
  inject = inject;
  produce_sync = λ ctx rec n. (n, none);
  log_closing = λ n. n;
  log_failure = λ topic key e n. n;
}

abbrev env : Env ℕ (Option Bytes)
env = record {
  ctx_err = λ ctx n. none;
  handler = λ ctx key payload n. (n, handler_returns none);
  dlq_producer = none;
  sleep = λ ctx d n. (n, true);
  poll_fetches = λ ctx n. (n, poll_failed true []);
  commit_records = λ ctx rec n. (n, none);
  extract = extract;
  start_span = λ ctx rec. ctx;
}

inject-recovers :
    (ctx receiver : Option Bytes)
    → is_traced ctx ≡ true
    → trace_of (extract receiver (inject ctx)) ≡ trace_of ctx
unfolding at_key
inject-recovers none receiver h = absurd (cc h)
inject-recovers (some id) receiver h = refl

inject-IsMap : (ctx : Option Bytes) → IsMap (inject ctx)
unfolding at_key
inject-IsMap none = tt
inject-IsMap (some id) = (refl, (refl, tt))

inject-IsPropagator : IsPropagator client.inject env.extract is_traced trace_of
inject-IsPropagator = record {
  maps = inject-IsMap;
  reads = λ ctx m m' same. ap (λ o. found_or o ctx) (same "traceparent");
  recovers = inject-recovers;
}

abbrev sender : Option Bytes
sender = some (1 ∷ 2 ∷ [])

abbrev received : KafkaRecord
received = record {
  topic = "orders";
  partition = 3;
  offset = 40;
  key = 7 ∷ [];
  value = 8 ∷ [];
  headers = ("traceparent", 1 ∷ 2 ∷ []) ∷ ("tracestate", 9 ∷ []) ∷ [];
}

trace_of-produced_example : trace_of (env.extract none (carrier received.headers)) ≡ trace_of sender
unfolding produced with_headers
trace_of-produced_example =
    trace_of-produced client env is_traced trace_of inject-IsPropagator sender none "orders"
      (7 ∷ []) (8 ∷ []) received refl refl
