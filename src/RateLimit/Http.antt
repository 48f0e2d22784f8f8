-- ===== src/RateLimit/Http.antt =====
-- `RateLimitMiddleware` and `getRealIP` of server/middleware/ratelimit.go.
use Prim.Native.String.{◌++◌ as str_append}
use text.Mathlib.Text.{◌==◌ as str_eq}
use helix_fnd.Prelude.{
  ℤ, pos, Bool, true, false, String, List, [], ◌∷◌, Option, none, some, leb_ℤ, if◌then◌else◌,
}
use helix_fnd.Context.{Value, str, int, strs, other, value, auth_principal_id_key}
use helix_fnd.Text.{split, trim_space, itoa}
use helix_fnd.Http.{
  Request, get_header, split_host, Served, Exit, returned, Handler, set_header, http_error,
  on_writer,
}

-- The Redis client running the script, and the process-wide emergency limiter of
-- golang.org/x/time/rate.
pub record Limiters (W : Type 0) : Type 0 where
  pub run_gcra : String → ℤ → ℤ → ℤ → W → W × Option ℤ  -- key, rate, period, burst; `none` is an error
  pub allow : W → W × Bool

-- `fmt.Sprintf("%v", v)`.
join_words : List String → String
join_words [] = ""
join_words (w ∷ []) = w
join_words (w ∷ ws) = str_append w (str_append " " (join_words ws))

unfoldable pub sprint : Value → String
unfolding join_words
sprint (str s) = s
sprint (int n) = itoa n
sprint (strs l) = str_append "[" (str_append (join_words l) "]")
sprint (other s) = s

abbrev first_part : List String → String
first_part [] = ""
first_part (p ∷ ps) = p

abbrev or_else : Option String → String → String
or_else none s = s
or_else (some host) s = host

unfoldable pub get_real_ip : Request → String
get_real_ip r =
    let forwarded = get_header r "X-Forwarded-For" in
    let real = get_header r "X-Real-Ip" in
    if str_eq forwarded ""
    then (if str_eq real "" then or_else (split_host r.remote_addr) r.remote_addr else real)
    else trim_space (first_part (split b',' forwarded))

abbrev user_or_ip : Option Value → String → String
user_or_ip (some user) ip = str_append "user:" (sprint user)
user_or_ip none ip = str_append "ip:" ip

-- The Redis key of a request.
unfoldable pub rate_key : Request → String
rate_key r = str_append "rl:" (user_or_ip (value r.ctx auth_principal_id_key) (get_real_ip r))

module _ {W : Type 0} (lim : Limiters W) (rps burst period : ℤ) where
  -- Redis is down: the local limiter decides.
  unfoldable pub fall_back : Handler W → Request → Served W → W × Bool → Exit W
  fall_back next r s (w, true) = next r (record s { world = w })
  fall_back next r s (w, false) = returned (
      on_writer
        (λ o.
          http_error "Service Unavailable (Rate Limit Fallback)" 503
            (set_header "X-RateLimit-Fallback" "true" o))
        (record s { world = w }))

  -- The script's verdict.
  unfoldable pub judge : Handler W → Request → Served W → Option ℤ → Exit W
  unfolding fall_back
  judge next r s none = fall_back next r s (lim.allow s.world)
  judge next r s (some res) =
      if leb_ℤ (pos 0) res
      then returned (
          on_writer
            (λ o.
              http_error "Rate limit exceeded" 429
                (set_header "X-RateLimit-Limit" (itoa rps) (set_header "Retry-After" (itoa res) o)))
            s)
      else next r (on_writer (set_header "X-RateLimit-Limit" (itoa rps)) s)

  unfoldable pub rate_limit_middleware : Handler W → Handler W
  unfolding judge
  rate_limit_middleware next r s =
      let (w, res) = lim.run_gcra (rate_key r) rps period burst s.world in
      if leb_ℤ rps (pos 0) then next r s else judge next r (record s { world = w }) res
