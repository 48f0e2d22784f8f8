-- ===== src/Middleware/Base/Stack.antt =====
-- The access log around the panic recovery.
use helix_fnd.Prelude.{ℕ, ◌≡◌, refl, ap, ◌⊎◌, inl, inr, String, Option}
use helix_fnd.Http.{Request, Served, Exit, returned, panicked, Handler, logged}
use helix_fnd.Response.{Envelope, error_json}
use helix_fnd.Response.Statuses.{status_after, HasSent, error_json-status, error_json-keeps}
use helix_fnd.Middleware.Recovery.{recovered, panic_recovery}
use helix_fnd.Middleware.Base.{
  recorded_status, wrapped, AccessEntry, entry_of, logger_middleware, log_request,
}

module _ {V W : Type 0} (encode : Envelope V → Option String) where
  module _ (now : W → ℕ) (info : AccessEntry → W → W) where
    -- The stack returned with one entry logged after the handler's own effects, which are those of `s₁`.
    abbrev pub IsLogged : Request → Served W → ℕ → Served W → Exit W → Type 0
    IsLogged r s₁ status s' outcome =
        (entry : AccessEntry) × (outcome ≡ returned s')
        × (s'.world ≡ info entry s₁.world)
        × (entry.path ≡ r.path)
        × (entry.status ≡ status)

    abbrev pub Answered : Request → Served W → Exit W → Exit W → Type 0
    Answered r s inner outcome =
        ((s₁ s' : Served W) × (inner ≡ returned s₁)
          × IsLogged r s₁ (recorded_status s₁.writer.explicit) s' outcome
          × (s'.writer.sent ≡ s₁.writer.sent))
        ⊎ ((msg : String) × (s₁ s' : Served W) × (inner ≡ panicked msg s₁)
            × IsLogged r s₁ 500 s' outcome
            × HasSent s'.writer (status_after s₁.writer.sent 500))

    answered :
        (r : Request) (s : Served W) (inner : Exit W)
        → Answered r s inner (log_request now info r s (recovered encode r inner))
    unfolding log_request
    answered r s (returned s₁) =
        inl (s₁, _, refl, (entry_of now info r s s₁, refl, refl, refl, refl), refl)
    answered r s (panicked msg s₁) =
        let crash = logged "HTTP PANIC RECOVERED" s₁ in
        let answer =
          error_json encode r 500 "INTERNAL_SERVER_ERROR" "An unexpected error occurred" crash in
        let (same, called) =
          error_json-keeps encode r 500 "INTERNAL_SERVER_ERROR" "An unexpected error occurred"
            crash in
        inr (
          msg,
          s₁,
          _,
          refl,
          (
            entry_of now info r s answer,
            refl,
            ap (info (entry_of now info r s answer)) same,
            refl,
            ap recorded_status called,
          ),
          error_json-status encode r 500 _ _ crash,
        )

    -- Behind the access log and the recovery, every request is answered and logged exactly once, after
    -- what the handler did, whether it returns or panics. What a handler sent and returned stays, and
    -- its last status is logged; after a panic 500 is logged, and the client gets it unless
    -- a status was sent before.
    pub logger_middleware-panic_recovery :
        (next : Handler W) (r : Request) (s : Served W)
        → Answered r s
            (next r (wrapped s))
            (logger_middleware now info (panic_recovery encode next) r s)
    unfolding logger_middleware panic_recovery
    logger_middleware-panic_recovery next r s = answered r s (next r (wrapped s))
