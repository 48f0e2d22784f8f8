-- ===== src/RateLimit/Grpc.antt =====
-- `GRPCRateLimitInterceptor` of server/middleware/grpc_ratelimit.go.
use Prim.Native.String.{◌++◌ as str_append}
use helix_fnd.Prelude.{ℤ, pos, String, [], ◌∷◌, ◌++◌, Option, none, some, leb_ℤ, if◌then◌else◌}
use helix_fnd.Context.{Value, value, auth_principal_id_key}
use helix_fnd.Text.{itoa}
use helix_fnd.Grpc.{Call, CallState, Exit, replied, status, resource_exhausted, Handler}
use helix_fnd.RateLimit.Http.{Limiters, sprint}

abbrev peer_ip : Option String → String
peer_ip none = "ip:unknown"
peer_ip (some addr) = str_append "ip:" addr

abbrev identity : Option Value → Option String → String
identity (some user) peer = str_append "user:" (sprint user)
identity none peer = peer_ip peer

unfoldable pub grpc_rate_key : Call → String
grpc_rate_key call =
    str_append "rl:grpc:" (identity (value call.ctx auth_principal_id_key) call.peer)

module _ {W : Type 0} (lim : Limiters W) (rate burst period : ℤ) where
  judge : Handler W → Call → CallState W → Option ℤ → Exit W
  judge handler call s none = handler call s
  judge handler call s (some res) =
      if leb_ℤ (pos 0) res
      then replied
          (record s {
            header =
                s.header ++ (("x-retry-after", itoa res) ∷ ("x-ratelimit-limit", itoa rate) ∷ []);
          })
          (status resource_exhausted
            (str_append "rate limit exceeded, retry in " (str_append (itoa res) " seconds")))
      else handler call s

  unfoldable pub grpc_rate_limit_interceptor : Handler W → Handler W
  unfolding judge
  grpc_rate_limit_interceptor handler call s =
      let (w, res) = lim.run_gcra (grpc_rate_key call) rate period burst s.world in
      if leb_ℤ rate (pos 0) then handler call s else judge handler call (record s { world = w }) res
