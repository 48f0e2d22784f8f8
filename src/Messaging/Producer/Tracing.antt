-- ===== src/Messaging/Producer/Tracing.antt =====
-- A trace over Kafka: what `Publish` puts into the headers, and what the consumer takes out of them.
use text.Mathlib.TextEquality.{eq_iff}
use mathlib.Core.List.{append-nil, append_assoc}
use helix_fnd.Prelude.{
  ◌≡◌, refl, sym, ap, ◌∙◌, Bool, true, String, List, [], ◌∷◌, ◌++◌, Option, none, some, at_key,
  assign, foldl, at_key-assign_self, at_key-assign_ne, arith,
}
use helix_fnd.Messaging.Env.{Bytes, Env, KafkaRecord}
use helix_fnd.Messaging.Loop.{carrier}
use helix_fnd.Messaging.Producer.{Client, ProducedRecord, with_headers, produced}

-- The entries of a Go map: no key twice.
abbrev pub IsMap : List (String × Bytes) → Type 0
IsMap [] = Unit
IsMap ((k, v) ∷ m) = (at_key m k ≡ none) × IsMap m

headers-with_headers :
    {W Ctx : Type 0} (client : Client W Ctx) (hs : List (String × Bytes)) (rec : ProducedRecord)
    → (with_headers client hs rec).headers ≡ rec.headers ++ hs
unfolding with_headers
headers-with_headers client [] rec = sym (append-nil rec.headers)
headers-with_headers client (h ∷ hs) rec =
    headers-with_headers client hs (record rec { headers = rec.headers ++ (h ∷ []) })
    ∙ append_assoc rec.headers (h ∷ []) hs

-- An entry of the later map, or else of the earlier one.
abbrev later_or : Option Bytes → Option Bytes → Option Bytes
later_or (some v) old = some v
later_or none old = old

at_key-foldl :
    (hs acc : List (String × Bytes)) (key : String)
    → IsMap hs
    → at_key (foldl (λ m h. assign m h.0 h.1) acc hs) key
      ≡ later_or (at_key hs key) (at_key acc key)
unfolding at_key
at_key-foldl [] acc key h = refl
at_key-foldl ((k, v) ∷ hs) acc key h =
    let rest = at_key-foldl hs (assign acc k v) key h.1 in
    ground
      (arith, eq_iff k key, rest, h.0, at_key-assign_self acc k v, at_key-assign_ne acc k key v)

later_or-none : (o : Option Bytes) → later_or o none ≡ o
later_or-none none = refl
later_or-none (some v) = refl

at_key-carrier :
    (hs : List (String × Bytes)) (key : String) → IsMap hs → at_key (carrier hs) key ≡ at_key hs key
unfolding carrier at_key
at_key-carrier hs key h = at_key-foldl hs [] key h ∙ later_or-none (at_key hs key)

-- What OpenTelemetry documents of a propagator: it injects a map, it extracts by looking keys up, and
-- what was injected for a traced context is extracted into any other.
pub record IsPropagator {Ctx T : Type 0} (inject : Ctx → List (String × Bytes))
    (extract : Ctx → List (String × Bytes) → Ctx) (is_traced : Ctx → Bool) (trace_of : Ctx → T)
    : Type 0 where
  pub maps : (ctx : Ctx) → IsMap (inject ctx)
  pub reads :
      (ctx : Ctx) (m m' : List (String × Bytes))
      → ((key : String) → at_key m key ≡ at_key m' key)
      → extract ctx m ≡ extract ctx m'
  pub recovers :
      (ctx receiver : Ctx)
      → is_traced ctx ≡ true
      → trace_of (extract receiver (inject ctx)) ≡ trace_of ctx

-- A record with the headers that `Publish` produced for a traced context, in a consumer: whatever context
-- the consumer has, and whatever the topic, key and payload, the context that it extracts has the trace
-- of the publisher.
pub trace_of-produced :
    {W Ctx T : Type 0} (client : Client W Ctx) (env : Env W Ctx) (is_traced : Ctx → Bool)
    (trace_of : Ctx → T) (lib : IsPropagator client.inject env.extract is_traced trace_of)
    (sender receiver : Ctx) (topic : String) (key payload : Bytes) (rec : KafkaRecord)
    → is_traced sender ≡ true
    → rec.headers ≡ (produced client sender topic key payload).headers
    → trace_of (env.extract receiver (carrier rec.headers)) ≡ trace_of sender
unfolding produced
trace_of-produced client env is_traced trace_of lib sender receiver topic key payload rec traced
      same =
    let sent : rec.headers ≡ client.inject sender =
      same ∙ headers-with_headers client (client.inject sender) _ in
    let carried =
      lib.reads receiver (carrier (client.inject sender)) (client.inject sender)
        (λ key. at_key-carrier (client.inject sender) key (lib.maps sender)) in
    ap (λ hs. trace_of (env.extract receiver (carrier hs))) sent
    ∙ ap trace_of carried
    ∙ lib.recovers sender receiver traced
