-- ===== src/Database/Postgres/Opening.antt =====
-- The pools that the constructor leaves open.
use helix_fnd.Prelude.{ℕ, ◌+◌, ◌-◌, ◌≡◌, ◌∙◌, String, Option, none, some, arith}
use helix_fnd.Database.Postgres.{
  PostgresConfig, PoolConfig, ParsedConfig, parsed_config, parse_error, Pgx, tuned, new_postgres,
  with_config, pooled, pinged,
}

abbrev pub opened : Option String → ℕ
opened none = 1
opened (some e) = 0

-- What pgx documents: a pool that is created is open until it is closed, and a ping opens and closes none.
pub record IsPgx {W : Type 0} (pgx : Pgx W) (open_pools : W → ℕ) : Type 0 where
  pub creates :
      (p : PoolConfig) (w : W)
      → open_pools (pgx.new_with_config p w).0 ≡ open_pools w + opened (pgx.new_with_config p w).1
  pub pings : (w : W) → open_pools (pgx.ping w).0 ≡ open_pools w
  pub closes : (w : W) → open_pools (pgx.close w) ≡ open_pools w - 1

module _ {W : Type 0} (pgx : Pgx W) (open_pools : W → ℕ) (lib : IsPgx pgx open_pools) where
  pinged-open :
      (n : ℕ) (outcome : W × Option String)
      → open_pools outcome.0 ≡ n + 1
      → open_pools (pinged pgx outcome).0 ≡ n + opened (pinged pgx outcome).1
  unfolding pinged
  pinged-open n (w, none) h = h
  pinged-open n (w, some e) h = omega (arith, h, lib.closes w)

  pooled-open :
      (n : ℕ) (outcome : W × Option String)
      → open_pools outcome.0 ≡ n + opened outcome.1
      → open_pools (pooled pgx outcome).0 ≡ n + opened (pooled pgx outcome).1
  unfolding pooled
  pooled-open n (w, some e) h = h
  pooled-open n (w, none) h = pinged-open n (pgx.ping w) (lib.pings w ∙ h)

  with_config-open :
      (cfg : PostgresConfig) (parsed : ParsedConfig) (w : W)
      → open_pools (with_config pgx cfg parsed w).0
        ≡ open_pools w + opened (with_config pgx cfg parsed w).1
  unfolding with_config
  with_config-open cfg (parse_error e) w = omega arith
  with_config-open cfg (parsed_config p) w =
      pooled-open (open_pools w) (pgx.new_with_config (tuned cfg p) w) (lib.creates (tuned cfg p) w)

  -- The constructor leaks no pool: if it returns one, exactly this one was opened, and if it returns an
  -- error, a ping that failed included, as many pools are open as before.
  pub open_pools-new_postgres :
      (cfg : PostgresConfig) (w : W)
      → open_pools (new_postgres pgx cfg w).0 ≡ open_pools w + opened (new_postgres pgx cfg w).1
  unfolding new_postgres
  open_pools-new_postgres cfg w = with_config-open cfg (pgx.parse_config cfg.db_dsn) w
