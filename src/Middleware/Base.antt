-- ===== src/Middleware/Base.antt =====
-- server/middleware/base.go and metrics.go. The logger, the clock, the Prometheus registry and chi's
-- response wrapper are parameters.
pub mod Cardinality
pub mod Stack
pub mod Statuses
mod Tests
use text.Mathlib.Text.{◌==◌ as str_eq}
use helix_fnd.Prelude.{
  ℕ, ◌-◌, ◌/◌, pos, String, List, [], ◌∷◌, ◌++◌, Option, none, some, ◌==◌, if◌then◌else◌,
}
use helix_fnd.Text.{itoa}
use helix_fnd.Http.{
  Request, Writer, Served, Exit, returned, panicked, Handler, set_header, on_writer,
}

-- `SecurityHeaders`.
unfoldable pub security_headers : {W : Type 0} → Handler W → Handler W
security_headers next r s = next r (
    on_writer
      (λ w.
        set_header "X-XSS-Protection" "1; mode=block"
          (set_header "X-Frame-Options" "DENY" (set_header "X-Content-Type-Options" "nosniff" w)))
      s)

-- The status that `responseWriter` holds: of the last `WriteHeader`, or 200.
abbrev pub recorded_status : List ℕ → ℕ
recorded_status [] = 200
recorded_status (status ∷ earlier) = status

pub record AccessEntry : Type 0 where
  pub method : String
  pub path : String
  pub status : ℕ
  pub duration_ms : ℕ
  pub remote_ip : String

-- The handler gets a writer of its own, in which no `WriteHeader` was called yet; its calls are passed
-- on.
abbrev pub wrapped : {W : Type 0} → Served W → Served W
wrapped s = on_writer (λ w. record w { explicit = [] }) s

abbrev pub unwrapped : {W : Type 0} → List ℕ → Served W → Served W
unwrapped outer s = on_writer (λ w. record w { explicit = w.explicit ++ outer }) s

module _ {W : Type 0} (now : W → ℕ) (info : AccessEntry → W → W) where
  abbrev pub entry_of : Request → Served W → Served W → AccessEntry
  entry_of r s s' = record {
    method = r.method;
    path = r.path;
    status = recorded_status s'.writer.explicit;
    duration_ms = (now s'.world - now s.world) / 1_000_000;
    remote_ip = r.remote_addr;
  }

  -- A panic of the handler passes through, and nothing is logged.
  log_request : Request → Served W → Exit W → Exit W
  log_request r s (panicked msg s') = panicked msg (unwrapped s.writer.explicit s')
  log_request r s (returned s') =
      returned (unwrapped s.writer.explicit (record s' { world = info (entry_of r s s') s'.world }))

  unfoldable pub logger_middleware : Handler W → Handler W
  unfolding log_request
  logger_middleware next r s = log_request r s (next r (wrapped s))

-- The labels of the metrics.
pub record Labels : Type 0 where
  pub status : String
  pub method : String
  pub path : String

-- The metrics registry, the pattern of chi's route context (`none` for no context), and what `Status` of
-- chi's wrapper says of the writer.
pub record Metrics (W : Type 0) : Type 0 where
  pub now : W → ℕ
  pub inc : Labels → W → W
  pub observe : Labels → ℕ → W → W
  pub route_pattern : Request → W → Option String
  pub wrapper_status : Writer → ℕ

abbrev unmatched : ℕ → String
unmatched status = if status == 404 then "not_found" else "unmatched_route"

-- The label of the path.
unfoldable pub path_label : Option String → ℕ → String
path_label none status = unmatched status
path_label (some pattern) status = if str_eq pattern "" then unmatched status else pattern

module _ {W : Type 0} (m : Metrics W) where
  abbrev pub labels_of : Request → Served W → Labels
  labels_of r s' =
      let status = m.wrapper_status s'.writer in
      record {
        status = itoa (pos status);
        method = r.method;
        path = path_label (m.route_pattern r s'.world) status;
      }

  measured : Request → Served W → Exit W → Exit W
  measured r s (panicked msg s') = panicked msg s'
  measured r s (returned s') =
      let labels = labels_of r s' in
      let duration = m.now s'.world - m.now s.world in
      returned (record s' { world = m.observe labels duration (m.inc labels s'.world) })

  unfoldable pub metrics_middleware : Handler W → Handler W
  unfolding measured
  metrics_middleware next r s = measured r s (next r s)
