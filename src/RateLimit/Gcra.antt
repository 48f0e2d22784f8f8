-- ===== src/RateLimit/Gcra.antt =====
-- The Lua script `luaGCRA` of server/middleware/ratelimit.go. Lua's doubles are taken as exact: all
-- times are counted in units of 1 / (rate * 10^9) seconds, in which `period / rate` is `period`
-- nanoseconds, so that every value of the script is a whole number of units.
pub mod Bucket
pub mod Retry
pub mod Window
use Prim.Native.Nat.{max}
use helix_fnd.Prelude.{
  ℕ, ◌+◌, ◌-◌, ◌*◌, ◌/◌, ℤ, pos, negsuc, pos_part, neg_part, String, List, Option, none, some, leb,
  ◌==◌, if◌then◌else◌, at_key, assign,
}

pub record Limit : Type 0 where
  pub rate : ℕ  -- positive: the callers skip the check otherwise
  pub period : ℕ  -- nanoseconds
  pub burst : ℤ

-- One second, one emission interval, and `burst` intervals, in units.
abbrev pub second : Limit → ℕ
second c = 1_000_000_000 * c.rate

abbrev pub interval : Limit → ℕ
interval c = c.period

abbrev pub ceil_div : ℕ → ℕ → ℕ
ceil_div a b = (a + (b - 1)) / b

-- `math.ceil(period * 2)` seconds, in seconds.
abbrev pub ttl : Limit → ℕ
ttl c = ceil_div (c.period * 2) 1_000_000_000

-- A key of Redis: the number stored, and when it expires.
pub record Entry : Type 0 where
  pub tat : ℕ
  pub expires : ℕ

-- `redis.call("TIME")`, in microseconds, as units.
abbrev pub units : Limit → ℕ → ℕ
units c usec = usec * 1000 * c.rate

-- `GET`: an expired key reads as a missing one, and then `tat` is `now_ts`.
unfoldable pub stored_tat : ℕ → Option Entry → ℕ
stored_tat now none = now
stored_tat now (some e) = if leb e.expires now then now else e.tat

-- The script's reply: its number, or the error of `SET` for an expiry of 0 seconds.
pub data Reply : Type 0 where
  number : ℤ → Reply
  script_error : Reply

-- The script on the entry of its key at the time `now`, in units. With a negative burst `allow_at`
-- lies above `new_tat`: the two parts of `burst` stand on the two sides.
unfoldable pub decide : Limit → ℕ → Option Entry → Reply × Option Entry
unfolding stored_tat
decide c now entry =
    let tat = max now (stored_tat now entry) in
    let new_tat = tat + interval c in
    let allow_at = new_tat + neg_part c.burst * interval c in
    let reach = now + pos_part c.burst * interval c in
    if leb allow_at reach
    then (if ttl c == 0
        then (script_error, entry)
        else (number (negsuc 0), some (record { tat = new_tat; expires = now + ttl c * second c })))
    else (number (pos (ceil_div (allow_at - reach) (second c))), entry)

-- The whole script: the key's entry is read and written in the store.
abbrev pub write_back : String → Option Entry → List (String × Entry) → List (String × Entry)
write_back key none store = store
write_back key (some e) store = assign store key e

unfoldable pub lua_gcra : Limit → String → ℕ → List (String × Entry) → Reply × List (String × Entry)
lua_gcra c key usec store =
    let (reply, entry) = decide c (units c usec) (at_key store key) in
    (reply, write_back key entry store)
