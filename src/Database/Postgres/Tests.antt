-- ===== src/Database/Postgres/Tests.antt =====
-- A server that takes no connection, and a query behind the tracer.
use helix_fnd.Prelude.{
  ℕ, suc, ◌+◌, ◌-◌, ◌≡◌, refl, ◌⊎◌, pos, true, false, [], ◌∷◌, ◌++◌, none, some, arith,
}
use helix_fnd.Tracing.{ends, Traced, Spans}
use helix_fnd.Database.Postgres.{
  PostgresConfig, PoolConfig, parsed_config, Pgx, tuned, new_postgres, QueryResult, command_tag,
  traced_query,
}
use helix_fnd.Database.Postgres.Opening.{IsPgx, opened, open_pools-new_postgres}
use helix_fnd.Database.Postgres.Queries.{IsNesting, told, query_span, traced_query-IsSpan}

abbrev cfg : PostgresConfig
cfg = record {
  db_dsn = "postgres://localhost/shop";
  db_max_conns = pos 50;
  db_min_conns = pos 10;
  db_max_conn_idle = pos 1_800_000_000_000;
  db_max_conn_life = pos 900_000_000_000;
  db_connect_timeout = pos 900_000_000_000;
  health_check_period = pos 5_000_000_000;
}

abbrev from_dsn : PoolConfig
from_dsn = record {
  max_conns = pos 4;
  min_conns = pos 0;
  max_conn_lifetime = pos 0;
  max_conn_idle_time = pos 0;
  connect_timeout = pos 0;
  health_check_period = pos 0;
}

-- The surroundings are the number of open pools.
abbrev unreachable : Pgx ℕ
unreachable = record {
  parse_config = λ dsn. parsed_config from_dsn;
  new_with_config = λ p n. (suc n, none);
  ping = λ n. (n, some "connection refused");
  close = λ n. n - 1;
}

abbrev open_pools : ℕ → ℕ
open_pools n = n

unreachable-IsPgx : IsPgx unreachable open_pools
unreachable-IsPgx = record { creates = λ p n. omega arith; pings = λ n. refl; closes = λ n. refl }

open_pools-new_postgres_example :
    open_pools (new_postgres unreachable cfg 2).0
    ≡ open_pools 2 + opened (new_postgres unreachable cfg 2).1
open_pools-new_postgres_example =
    open_pools-new_postgres unreachable open_pools unreachable-IsPgx cfg 2

-- The configured period of five seconds is lost.
one_minute : (tuned cfg from_dsn).health_check_period ≡ pos 60_000_000_000
unfolding tuned
one_minute = refl

-- A context is the number of its span, and every span records.
abbrev spans : Spans ℕ
spans = record { is_recording = λ ctx. true; with_span = λ ctx id. id; span_of = λ ctx. ctx }

spans-IsNesting : IsNesting spans
spans-IsNesting = record { found = λ ctx id. refl }

abbrev inserts : ℕ → ℕ × QueryResult
inserts n = (suc n, command_tag "INSERT 0 1")

abbrev begin : Traced ℕ
begin = record { world = 0; next_span = 5; calls = [] }

traced_query-IsSpan_example :
    let (t', result) = traced_query spans inserts 1 "insert into items default values" begin in
    (t'.world ≡ (inserts begin.world).0)
    × (result ≡ (inserts begin.world).1)
    × (((true ≡ false) × (t'.calls ≡ []))
        ⊎ (((true ≡ true)
              × (true ≡ false)
              × (t'.calls ≡ query_span 5 "insert into items default values" ∷ []))
            ⊎ ((true ≡ true)
                × (true ≡ true)
                × (t'.calls
                    ≡ query_span 5 "insert into items default values"
                      ∷ (told 5 (command_tag "INSERT 0 1") ++ (ends 5 ∷ []))))))
traced_query-IsSpan_example =
    traced_query-IsSpan spans spans-IsNesting inserts 1 "insert into items default values" begin
