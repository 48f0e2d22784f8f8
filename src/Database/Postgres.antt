-- ===== src/Database/Postgres.antt =====
-- database/postgres.go: the constructor of the pool, over pgx, and the tracer of queries. Durations are in
-- nanoseconds.
pub mod Opening
pub mod Queries
mod Tests
use Prim.Native.String.{◌++◌ as str_append}
use helix_fnd.Prelude.{
  ℕ, ℤ, pos, Bool, true, false, String, List, [], ◌∷◌, ◌++◌, Option, none, some, if◌then◌else◌,
}
use helix_fnd.Tracing.{
  TraceCall, records_error, sets_error_status, sets_attribute, ends, Traced, noted, start_span,
  Spans,
}

pub record PostgresConfig : Type 0 where
  pub db_dsn : String
  pub db_max_conns : ℤ
  pub db_min_conns : ℤ
  pub db_max_conn_idle : ℤ
  pub db_max_conn_life : ℤ
  pub db_connect_timeout : ℤ
  pub health_check_period : ℤ

-- What the code sets of a `pgxpool.Config`.
pub record PoolConfig : Type 0 where
  pub max_conns : ℤ
  pub min_conns : ℤ
  pub max_conn_lifetime : ℤ
  pub max_conn_idle_time : ℤ
  pub connect_timeout : ℤ
  pub health_check_period : ℤ

pub data ParsedConfig : Type 0 where
  parsed_config : PoolConfig → ParsedConfig
  parse_error : String → ParsedConfig

pub record Pgx (W : Type 0) : Type 0 where
  pub parse_config : String → ParsedConfig
  pub new_with_config : PoolConfig → W → W × Option String
  pub ping : W → W × Option String
  pub close : W → W

-- The health check period is set from the configuration, and then again.
unfoldable pub tuned : PostgresConfig → PoolConfig → PoolConfig
tuned cfg p =
    let from_config = record p {
      max_conns = cfg.db_max_conns;
      min_conns = cfg.db_min_conns;
      max_conn_lifetime = cfg.db_max_conn_life;
      max_conn_idle_time = cfg.db_max_conn_idle;
      connect_timeout = cfg.db_connect_timeout;
      health_check_period = cfg.health_check_period;
    } in
    record from_config { health_check_period = pos 60_000_000_000 }

module _ {W : Type 0} (pgx : Pgx W) where
  pinged : W × Option String → W × Option String
  pinged (w, none) = (w, none)
  pinged (w, some e) = (pgx.close w, some (str_append "database: failed to ping postgres: " e))

  pooled : W × Option String → W × Option String
  unfolding pinged
  pooled (w, some e) = (w, some (str_append "database: failed to create pool: " e))
  pooled (w, none) = pinged (pgx.ping w)

  with_config : PostgresConfig → ParsedConfig → W → W × Option String
  unfolding pooled
  with_config cfg (parse_error e) w = (w, some (str_append "database: failed to parse DBDSN: " e))
  with_config cfg (parsed_config p) w = pooled (pgx.new_with_config (tuned cfg p) w)

  -- `NewPostgres`: `none` is a pool, and otherwise the error.
  unfoldable pub new_postgres : PostgresConfig → W → W × Option String
  unfolding with_config
  new_postgres cfg w = with_config cfg (pgx.parse_config cfg.db_dsn) w

-- The end of a query: its error, or the command tag.
pub data QueryResult : Type 0 where
  query_failed : String → QueryResult
  command_tag : String → QueryResult

abbrev pub result_calls : ℕ → QueryResult → List TraceCall
result_calls id (query_failed e) = records_error id e ∷ sets_error_status id e ∷ []
result_calls id (command_tag tag) = sets_attribute id "db.command_tag" tag ∷ []

module _ {W Ctx : Type 0} (spans : Spans Ctx) where
  unfoldable pub trace_query_start : Ctx → String → Traced W → Traced W × Ctx
  trace_query_start ctx sql t =
      let (t', id) =
        start_span "db.query" (("db.system", "postgresql") ∷ ("db.statement", sql) ∷ []) t in
      if spans.is_recording ctx then (t', spans.with_span ctx id) else (t, ctx)

  unfoldable pub trace_query_end : Ctx → QueryResult → Traced W → Traced W
  trace_query_end ctx result t =
      let id = spans.span_of ctx in
      if spans.is_recording ctx then noted (ends id ∷ []) (noted (result_calls id result) t) else t

  -- A query as pgx runs it: the end gets the context of the start.
  unfoldable pub traced_query :
      (W → W × QueryResult) → Ctx → String → Traced W → Traced W × QueryResult
  traced_query query ctx sql t =
      let (t', ctx') = trace_query_start ctx sql t in
      let (w, result) = query t'.world in
      (trace_query_end ctx' result (record t' { world = w }), result)
