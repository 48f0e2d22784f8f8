-- ===== src/Middleware/Base/Tests.antt =====
-- A handler behind the access log, and one behind the metrics.
use helix_fnd.Prelude.{
  ℕ, zero, suc, ◌+◌, ◌≡◌, refl, inl, inr, String, List, [], ◌∷◌, Option, none, some,
}
use helix_fnd.Http.{
  Request, Served, returned, panicked, Handler, blank, on_writer, set_header, write_header,
  write_body,
}
use helix_fnd.Middleware.Base.{AccessEntry, logger_middleware, wrapped, recorded_status, Metrics}
use helix_fnd.Response.{Envelope}
use helix_fnd.Middleware.Recovery.{panic_recovery}
use helix_fnd.Middleware.Base.Stack.{Answered, logger_middleware-panic_recovery}
use helix_fnd.Middleware.Base.Statuses.{
  Op, sets, sends, writes, performs, is_proper, client_status, logger_middleware-status,
}
use helix_fnd.Middleware.Base.Cardinality.{Counted, visits, IsRouted, AllKnown, visits-AllKnown}

abbrev list_items : Request
list_items = record {
  method = "GET";
  path = "/items/7";
  remote_addr = "10.0.0.7:5000";
  header = [];
  ctx = [];
}

-- The surroundings count the milliseconds; the log takes one.
abbrev idle : Served ℕ
idle = record { world = 3_000_000; writer = blank; logs = [] }

abbrev making : List Op
making = sets "Content-Type" "text/plain" ∷ sends 201 ∷ writes "made" ∷ writes "." ∷ []

abbrev creates : Handler ℕ
creates r s = returned (on_writer (performs making) (record s { world = s.world + 5_000_000 }))

abbrev after_creates : Served ℕ
after_creates = on_writer (performs making) (record (wrapped idle) { world = 8_000_000 })

abbrev noting : AccessEntry → ℕ → ℕ
noting entry n = suc n

logger_middleware-status_example :
    (s' : Served ℕ) × (entry : AccessEntry) × (logger_middleware
        (λ n. n)
        noting
        creates
        list_items
        idle
      ≡ returned s')
    × (s'.world ≡ noting entry after_creates.world)
    × (entry.path ≡ "/items/7")
    × (entry.status ≡ client_status s'.writer.sent)
unfolding is_proper
logger_middleware-status_example =
    logger_middleware-status (λ n. n) noting creates list_items idle after_creates making refl refl
      refl refl

logged_201 :
    (recorded_status (performs making (wrapped idle).writer).explicit ≡ 201)
    × (client_status (performs making (wrapped idle).writer).sent ≡ 201)
unfolding performs write_body write_header set_header
logged_201 = (refl, refl)

-- A router with one route, under which every request but the first is.
abbrev patterns : List String
patterns = "/items/{id}" ∷ []

abbrev registry : Metrics ℕ
registry = record {
  now = λ n. n;
  inc = λ l n. suc n;
  observe = λ l d n. n;
  route_pattern = λ r n. elim n [ zero ↦ none | suc k ↦ some "/items/{id}" ];
  wrapper_status = λ w. recorded_status w.explicit;
}

abbrev registry-routed : (r : Request) (n : ℕ) → IsRouted patterns (registry.route_pattern r n)
registry-routed r zero = tt
registry-routed r (suc k) = inr (inl refl)

abbrev uncounted : Counted ℕ
uncounted = record { inner = 0; labels = [] }

abbrev stays : Handler ℕ
stays r s = returned s

visits-AllKnown_example :
    AllKnown registry stays patterns registry-routed
      (visits registry stays (list_items ∷ list_items ∷ []) uncounted).labels
visits-AllKnown_example =
    visits-AllKnown registry stays patterns registry-routed (list_items ∷ list_items ∷ []) uncounted
      refl

-- It sends nothing and panics.
abbrev crashes : Handler ℕ
crashes r s = panicked "boom" (record s { world = s.world + 1_000_000 })

abbrev no_json : Envelope String → Option String
no_json env = none

logger_middleware-panic_recovery_example :
    Answered no_json
      (λ n. n)
      noting
      list_items
      idle
      (crashes list_items (wrapped idle))
      (logger_middleware (λ n. n) noting (panic_recovery no_json crashes) list_items idle)
logger_middleware-panic_recovery_example =
    logger_middleware-panic_recovery no_json (λ n. n) noting crashes list_items idle
