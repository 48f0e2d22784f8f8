-- ===== src/Middleware/Idempotency.antt =====
-- `IdempotencyMiddleware` of server/middleware/idempotency.go.
pub mod Once
pub mod Spacing
mod Tests
use Prim.Native.String.{◌++◌ as str_append}
use text.Mathlib.Text.{◌==◌ as str_eq}
use helix_fnd.Prelude.{ℕ, Bool, true, false, String, Option, none, some, if◌then◌else◌}
use helix_fnd.Http.{
  Request, get_header, Served, Exit, returned, Handler, set_header, http_error, on_writer, logged,
}

pub record IdempotencyConfig : Type 0 where
  pub header_key : String
  pub expiry : ℕ
  pub fail_open : Bool

-- The Redis client's `SetNX(key, "locked", expiry)`: whether it set the key, `none` for an error.
pub record Locks (W : Type 0) : Type 0 where
  pub set_nx : String → ℕ → W → W × Option Bool

unfoldable pub redis_key : String → String
redis_key key = str_append "idempotency:" key

module _ {W : Type 0} (locks : Locks W) (cfg : IdempotencyConfig) where
  unfoldable pub acquired : Handler W → Request → Served W → Option Bool → Exit W
  acquired next r s none =
      let s' = logged "idempotency: redis unreachable" s in
      if cfg.fail_open
      then next r (logged "idempotency: bypassed check due to redis failure" s')
      else returned (on_writer (http_error "Idempotency check service unavailable" 503) s')
  acquired next r s (some true) = next r s
  acquired next r s (some false) = returned (
      on_writer (λ w. http_error "Duplicate request detected" 409 (set_header "Retry-After" "5" w))
        (logged "idempotency: conflict detected" s))

  unfoldable pub idempotency_middleware : Handler W → Handler W
  unfolding acquired
  idempotency_middleware next r s =
      let key = get_header r cfg.header_key in
      let (w, success) = locks.set_nx (redis_key key) cfg.expiry s.world in
      if str_eq key "" then next r s else acquired next r (record s { world = w }) success
