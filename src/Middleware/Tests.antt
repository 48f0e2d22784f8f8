-- ===== src/Middleware/Tests.antt =====
-- Middlewares over small surroundings.
use text.Mathlib.Text.{◌==◌ as str_eq}
use text.Mathlib.TextPositions.{eq_refl}
use helix_fnd.Prelude.{
  ℕ, suc, ◌≤◌, ◌≡◌, refl, ◌⊎◌, inl, inr, Bool, true, false, ◌||◌, String, List, [], ◌∷◌, Option,
  none, some, at_key, arith, count, if◌then◌else◌, Bool-cases,
}
use helix_fnd.Context.{Context}
use helix_fnd.Context.Accessors.{get_trace_id, get_request_id}
use helix_fnd.Http.{
  Request, Served, returned, panicked, Handler, blank, with_ctx, on_writer, write_header,
}
use helix_fnd.Response.{Envelope}
use helix_fnd.Response.Statuses.{HasSent, status_after}
use helix_fnd.Middleware.Idempotency.{IdempotencyConfig, Locks}
use helix_fnd.Middleware.Idempotency.Once.{IsExclusive, Seen, visits, of_key, passed_once}
use helix_fnd.Middleware.Recovery.{panic_recovery, panic_recovery-cases}
use helix_fnd.Middleware.Trace.{Ids, trace_id_middleware}
use helix_fnd.Middleware.Trace.Agreement.{trace_id_middleware-agrees}

-- A Redis as the list of the keys held.
abbrev is_held : String → List String → Bool
is_held key [] = false
is_held key (k ∷ ks) = str_eq k key || is_held key ks

abbrev lock_list : Locks (List String)
lock_list = record {
  set_nx = λ key d w. if is_held key w then (w, some false) else (key ∷ w, some true);
}

lock_list-takes :
    (key : String) (d : ℕ) (w : List String)
    → (lock_list.set_nx key d w).1 ≡ some true
    → (is_held key w ≡ false) × (is_held key (lock_list.set_nx key d w).0 ≡ true)
lock_list-takes key d w h = elim (Bool-cases (is_held key w)) [
  | inl held ↦ ground (arith, h, held)
  | inr new ↦ (new, rw (new, eq_refl key) refl)
]

lock_list-keeps :
    (key other : String) (d : ℕ) (w : List String)
    → is_held other w ≡ true
    → is_held other (lock_list.set_nx key d w).0 ≡ true
lock_list-keeps key other d w h = elim (Bool-cases (is_held key w)) [
  | inl held ↦ rw held h
  | inr new ↦ ground (arith, h, new)
]

lock_list-IsExclusive : IsExclusive lock_list is_held
lock_list-IsExclusive = record { takes = lock_list-takes; keeps = lock_list-keeps }

abbrev strict : IdempotencyConfig
strict = record { header_key = "X-Idempotency-Key"; expiry = 60; fail_open = false }

abbrev pay : Request
pay = record {
  method = "POST";
  path = "/pay";
  remote_addr = "10.0.0.7:5000";
  header = ("X-Idempotency-Key", "p1" ∷ []) ∷ [];
  ctx = [];
}

abbrev nothing_seen : Seen (List String)
nothing_seen = record { inner = []; passed = [] }

passed_once_example :
    count
      (of_key lock_list strict is_held lock_list-IsExclusive refl "p1" refl)
      (visits lock_list strict (pay ∷ pay ∷ pay ∷ []) nothing_seen).passed
    ≤ 1
passed_once_example =
    passed_once lock_list strict is_held lock_list-IsExclusive refl "p1" refl (pay ∷ pay ∷ pay ∷ [])
      nothing_seen refl

abbrev idle : Served ℕ
idle = record { world = 0; writer = blank; logs = [] }

-- It sends a 202, and then panics.
abbrev crashing : Handler ℕ
crashing r s = panicked "boom" (on_writer (write_header 202) s)

abbrev encode_none : Envelope String → Option String
encode_none env = none

panic_recovery_example :
    ((s' : Served ℕ) × (crashing pay idle ≡ returned s')
      × (panic_recovery encode_none crashing pay idle ≡ returned s'))
    ⊎ ((msg : String) × (s' s'' : Served ℕ) × (crashing pay idle ≡ panicked msg s')
        × (panic_recovery encode_none crashing pay idle ≡ returned s'')
        × HasSent s''.writer (status_after s'.writer.sent 500))
panic_recovery_example = panic_recovery-cases encode_none crashing pay idle

abbrev made_ids : Ids ℕ
made_ids = record {
  span_trace_id = λ ctx. none;
  new_hex = λ w. (suc w, "00ff");
  new_string = λ w. (suc w, "00-ff");
}

trace_id_example :
    (ctx : Context) × (s' : Served ℕ) × (trace_id_middleware made_ids crashing pay idle
      ≡ crashing (with_ctx pay ctx) s')
    × (at_key s'.writer.header "X-Trace-Id" ≡ some (get_trace_id (some ctx)))
    × (at_key s'.writer.header "X-Request-Id" ≡ some (get_request_id (some ctx)))
    × (str_eq (get_trace_id (some ctx)) "" ≡ false)
    × (str_eq (get_request_id (some ctx)) "" ≡ false)
trace_id_example = trace_id_middleware-agrees made_ids (λ w. refl) (λ w. refl) crashing pay idle
