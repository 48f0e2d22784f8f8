-- ===== src/RateLimit/Tests.antt =====
-- Ten requests a second with a burst of five, at a few times.
use helix_fnd.Prelude.{
  ℕ, ◌+◌, ◌*◌, ◌≤◌, ◌<◌, ◌≡◌, refl, pos, true, false, List, [], ◌∷◌, Option, none, some, arith,
  String, at_key, Bool, false, count,
}
use helix_fnd.Context.{value}
use helix_fnd.Text.{canonical_header_key}
use helix_fnd.Http.{Request, get_header, split_host}
use helix_fnd.RateLimit.Http.{rate_key, get_real_ip, sprint}
use helix_fnd.RateLimit.Gcra.{Limit, Entry, decide, stored_tat, second, units, interval}
use helix_fnd.Grpc.{Call}
use helix_fnd.RateLimit.Grpc.{grpc_rate_key}
use helix_fnd.RateLimit.Arrivals.{Shared, Arrival, http_request, grpc_call}
use helix_fnd.RateLimit.Traffic.{config, of_key, visits, passed_bound}
use helix_fnd.RateLimit.Gcra.Bucket.{
  TokenBucket, withdraw, withdrawals, verdicts, verdicts-withdrawals,
}
use helix_fnd.RateLimit.Gcra.Window.{allowed, allowed-le, is_allowed}
use helix_fnd.RateLimit.Gcra.Retry.{decide-retry_after}

abbrev two_a_second : Limit
two_a_second = record { rate = 2; period = 1_000_000_000; burst = pos 3 }

-- Five requests at once: the first three pass.
three_pass : allowed two_a_second (0 ∷ 0 ∷ 0 ∷ 0 ∷ 0 ∷ []) none ≡ 3
unfolding allowed decide stored_tat
three_pass = refl

allowed-le_example :
    0 + allowed two_a_second (0 ∷ 0 ∷ 0 ∷ 0 ∷ 0 ∷ []) none * 1_000_000_000 ≤ 0 + 3 * 1_000_000_000
allowed-le_example =
    allowed-le two_a_second (omega arith) 0 0 (0 ∷ 0 ∷ 0 ∷ 0 ∷ 0 ∷ []) none tt (omega arith)

-- The entry after three requests at time 0: half a second of waiting is rounded up to one.
abbrev spent : Option Entry
spent = some (record { tat = 3_000_000_000; expires = 4_000_000_000 })

decide-retry_after_example :
    (spent ≡ spent)
    × (0 < 1)
    × ((t : ℕ)
        → 0 + 1 * second two_a_second ≤ t
        → is_allowed (decide two_a_second t spent).0 ≡ true)
    × ((t : ℕ)
        → 0 ≤ t
        → t + second two_a_second ≤ 0 + 1 * second two_a_second
        → is_allowed (decide two_a_second t spent).0 ≡ false)
unfolding decide stored_tat
decide-retry_after_example =
    decide-retry_after two_a_second 0 1 2 spent spent (omega arith) (omega arith) refl (omega arith)
      refl

-- With a burst of ten at one request a second the key expires, after two seconds, before it is due:
-- ten more requests pass at once, where three intervals and ten would be the limit.
abbrev forgetful : Limit
forgetful = record { rate = 1; period = 1_000_000_000; burst = pos 10 }

abbrev ten_at : ℕ → List ℕ → List ℕ
ten_at t ts = t ∷ t ∷ t ∷ t ∷ t ∷ t ∷ t ∷ t ∷ t ∷ t ∷ ts

twenty_pass : allowed forgetful (ten_at 0 (ten_at 2_000_000_000 [])) none ≡ 20
unfolding allowed decide stored_tat
twenty_pass = refl

-- Both limiters: three requests of one client at once, with a call of another in between, and then one
-- more.
abbrev from : String → Request
from addr = record { method = "GET"; path = "/"; remote_addr = addr; header = []; ctx = [] }

abbrev refuse : Shared → Shared × Bool
refuse w = (w, false)

abbrev empty_redis : Shared
empty_redis = record { store = []; clock = 0; passed = [] }

abbrev by_grpc : Call
by_grpc = record { ctx = []; metadata = none; peer = none; full_method = "/get"; req = "" }

abbrev burst_of_two : List (ℕ × Arrival)
burst_of_two =
    (0, http_request (from "10.0.0.7:1"))
    ∷ (0, http_request (from "10.0.0.7:2"))
    ∷ (0, grpc_call by_grpc)
    ∷ (0, http_request (from "10.0.0.7:3"))
    ∷ (0, http_request (from "10.0.0.9:1"))
    ∷ []

abbrev two_in_burst : Limit
two_in_burst = config refuse 1 1 (pos 2)

passed_bound_example :
    units two_in_burst 0
      + count
          (of_key refuse 1 1 (pos 2) "rl:ip:10.0.0.7" (omega arith))
          (visits refuse 1 1 (pos 2) burst_of_two empty_redis).passed
        * interval two_in_burst
    ≤ units two_in_burst 0 + 2 * interval two_in_burst
unfolding at_key rate_key grpc_rate_key get_real_ip get_header split_host value sprint
    canonical_header_key
passed_bound_example =
    passed_bound refuse 1 1 (pos 2) "rl:ip:10.0.0.7" (omega arith) 0 0 burst_of_two empty_redis
      (omega arith) tt (omega arith, (omega arith, (omega arith, omega arith))) refl

-- Six requests over time, by the script and by the bucket.
abbrev full_bucket : TokenBucket
full_bucket = record { tokens = 3_000_000_000; last = 0 }

abbrev six_times : List ℕ
six_times = 0 ∷ 0 ∷ 0 ∷ 0 ∷ 1_000_000_000 ∷ 1_500_000_000 ∷ []

verdicts-withdrawals_example :
    verdicts two_a_second six_times none
    ≡ withdrawals 3_000_000_000 1_000_000_000 six_times full_bucket
verdicts-withdrawals_example =
    verdicts-withdrawals two_a_second (omega arith) (omega arith) 1_500_000_000 six_times
      full_bucket none (omega arith) (tt, refl)

six_verdicts :
    withdrawals 3_000_000_000 1_000_000_000 six_times full_bucket
    ≡ true ∷ true ∷ true ∷ false ∷ true ∷ false ∷ []
unfolding withdrawals withdraw
six_verdicts = refl
