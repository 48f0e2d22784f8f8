-- ===== src/Middleware/Recovery.antt =====
-- server/middleware/recovery.go and grpc_recovery.go. `encode` is the JSON encoder.
use helix_fnd.Prelude.{◌≡◌, refl, ◌⊎◌, inl, inr, String, ◌∷◌, Option}
use helix_fnd.Http.{Request, Served, logged, returned, panicked, Handler, Exit}
use helix_fnd.Grpc
use helix_fnd.Grpc.{Call, CallState, Reply, response, status, internal, replied}
use helix_fnd.Response.Statuses.{status_after, HasSent, write-status}
use helix_fnd.Response.{Envelope, error_json, error_json_with_details}

abbrev pub recovered : {V W : Type 0} → (Envelope V → Option String) → Request → Exit W → Exit W
recovered encode r (returned s) = returned s
recovered encode r (panicked msg s) = returned (
    error_json encode r 500 "INTERNAL_SERVER_ERROR" "An unexpected error occurred"
      (logged "HTTP PANIC RECOVERED" s))

recovered-cases :
    {V W : Type 0} (encode : Envelope V → Option String) (r : Request) (outcome : Exit W)
    → ((s' : Served W) × (outcome ≡ returned s') × (recovered encode r outcome ≡ returned s'))
      ⊎ ((msg : String) × (s' s'' : Served W) × (outcome ≡ panicked msg s')
          × (recovered encode r outcome ≡ returned s'')
          × HasSent s''.writer (status_after s'.writer.sent 500))
unfolding error_json error_json_with_details
recovered-cases encode r (returned s) = inl (s, refl, refl)
recovered-cases encode r (panicked msg s) =
    inr (msg, s, _, refl, refl, write-status encode 500 _ (logged "HTTP PANIC RECOVERED" s))

unfoldable pub panic_recovery :
    {V W : Type 0} → (Envelope V → Option String) → Handler W → Handler W
panic_recovery encode next r s = recovered encode r (next r s)

abbrev pub recovered_call : {W : Type 0} → Grpc.Exit W → Grpc.Exit W
recovered_call (Grpc.replied s reply) = Grpc.replied s reply
recovered_call (Grpc.panicked msg s) =
    Grpc.replied (record s { logs = "GRPC PANIC RECOVERED" ∷ s.logs })
      (status internal "internal server error")

unfoldable pub grpc_recovery_interceptor : {W : Type 0} → Grpc.Handler W → Grpc.Handler W
grpc_recovery_interceptor handler call s = recovered_call (handler call s)

-- No panic gets through. What a handler returned stays as it is; after a panic the response has the
-- status that was sent before it, and otherwise 500.
pub panic_recovery-cases :
    {V W : Type 0} (encode : Envelope V → Option String) (next : Handler W) (r : Request)
    (s : Served W)
    → ((s' : Served W) × (next r s ≡ returned s') × (panic_recovery encode next r s ≡ returned s'))
      ⊎ ((msg : String) × (s' s'' : Served W) × (next r s ≡ panicked msg s')
          × (panic_recovery encode next r s ≡ returned s'')
          × HasSent s''.writer (status_after s'.writer.sent 500))
unfolding panic_recovery
panic_recovery-cases encode next r s = recovered-cases encode r (next r s)
