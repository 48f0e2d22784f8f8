-- ===== src/Server/Outcome.antt =====
-- What `Start` returns, and what it has done to the servers by then.
use Prim.Native.String.{◌++◌ as str_append}
use std.Path.{subst}
use helix_fnd.Prelude.{
  ◌∙◌, Bool-cases, Option-cases, ◌≡◌, refl, sym, ap, ◌⊎◌, inl, inr, Bool, true, false, String, List,
  [], ◌∷◌, ◌++◌, Option, none, some, if◌then◌else◌,
}
use helix_fnd.Server.{
  ServerConfig, Worker, absent, listening, serving, sending, Main, selecting, stopping_http,
  stopping_grpc, exited, ShutdownCall, http_shutdown, grpc_graceful_stop, System, not_started,
  running, start_servers, spawned, http_failed, grpc_listen_failed, grpc_failed, http_calls,
  grpc_calls, Step, http_closes, http_fails, http_sends, grpc_listens, grpc_listen_fails,
  grpc_closes, grpc_fails, grpc_sends, cancels, sees_done, sees_error, stops_http, stops_grpc,
  Reach, here, next,
}

-- The calls of a shutdown, by whether HTTP is enabled and whether there is a gRPC server.
abbrev pub expected : Bool → Bool → List ShutdownCall
expected true true = http_shutdown ∷ grpc_graceful_stop ∷ []
expected true false = http_shutdown ∷ []
expected false true = grpc_graceful_stop ∷ []
expected false false = []

module _ (cfg : ServerConfig) (has_grpc : Bool) where
  -- An error of a server that is enabled.
  abbrev pub IsFailure : String → Type 0
  IsFailure e =
      ((cfg.enable_http ≡ true) × (x : String) × (e ≡ http_failed x))
      ⊎ ((cfg.enable_grpc ≡ true)
          × (x : String) × ((e ≡ grpc_listen_failed x) ⊎ (e ≡ grpc_failed x)))

  abbrev pub AllFailures : List String → Type 0
  AllFailures [] = Unit
  AllFailures (e ∷ es) = IsFailure e × AllFailures es

  -- A goroutine runs only if its server is enabled, and sends only failures.
  abbrev Runs : Bool → Worker → Type 0
  Runs enabled absent = Unit
  Runs enabled (sending e) = (enabled ≡ true) × IsFailure e
  Runs enabled _ = enabled ≡ true

  -- Why `Start` refuses: the certificates of the clients cannot be loaded.
  abbrev pub IsRefusal : Option String → String → Type 0
  IsRefusal mtls e =
      (cfg.enable_http ≡ true)
      × (cfg.http_mtls_enabled ≡ true)
      × (x : String) × (mtls ≡ some x)
      × (e ≡ str_append "failed to load HTTP mTLS config: " x)

  -- A return of `Start`, where `mtls` is what `loadMTLSConfig` answers: its error, whether the context was
  -- cancelled, and the calls that were made to stop servers.
  pub data Returned (mtls : Option String) : Option String → Bool → List ShutdownCall → Type 0 where
    refuses :
        (e : String) (cancelled : Bool)
        → start_servers cfg mtls ≡ not_started e
        → Returned mtls (some e) cancelled []
    ends :
        (s t : System) (result : Option String)
        → start_servers cfg mtls ≡ running s
        → Reach cfg has_grpc s t
        → t.main ≡ exited result
        → Returned mtls result t.cancelled t.calls

  -- The calls made so far.
  abbrev pub Accounts : Bool → List ShutdownCall → Main → Type 0
  Accounts cancelled calls selecting = calls ≡ []
  Accounts cancelled calls stopping_http = (cancelled ≡ true) × (calls ≡ [])
  Accounts cancelled calls stopping_grpc = (cancelled ≡ true) × (calls ≡ http_calls cfg)
  Accounts cancelled calls (exited none) =
      (cancelled ≡ true) × (calls ≡ http_calls cfg ++ grpc_calls has_grpc)
  Accounts cancelled calls (exited (some e)) = IsFailure e × (calls ≡ [])

  abbrev IsSound : System → Type 0
  IsSound s =
      Runs cfg.enable_http s.http
      × Runs cfg.enable_grpc s.grpc
      × AllFailures s.err_chan
      × Accounts s.cancelled s.calls s.main

  Runs-if :
      (enabled : Bool) (w : Worker) → Runs true w → Runs enabled (if enabled then w else absent)
  Runs-if true w h = h
  Runs-if false w h = tt

  Runs-enabled : (enabled : Bool) (w w' : Worker) → w ≡ w' → Runs enabled w → Runs enabled w'
  Runs-enabled enabled w w' e h = rw (sym e) h

  AllFailures-append :
      (es : List String) (e : String) → AllFailures es → IsFailure e → AllFailures (es ++ (e ∷ []))
  AllFailures-append [] e h k = (k, tt)
  AllFailures-append (x ∷ es) e h k = (h.0, AllFailures-append es e h.1 k)

  Accounts-cancelled :
      (b : Bool) (calls : List ShutdownCall) (m : Main) → Accounts b calls m → Accounts true calls m
  Accounts-cancelled b calls selecting h = h
  Accounts-cancelled b calls stopping_http h = (refl, h.1)
  Accounts-cancelled b calls stopping_grpc h = (refl, h.1)
  Accounts-cancelled b calls (exited none) h = (refl, h.1)
  Accounts-cancelled b calls (exited (some e)) h = h

  Accounts-at :
      (b : Bool) (calls : List ShutdownCall) (m m' : Main)
      → m ≡ m'
      → Accounts b calls m
      → Accounts b calls m'
  Accounts-at b calls m m' e h = rw (sym e) h

  AllFailures-at : (es es' : List String) → es ≡ es' → AllFailures es → AllFailures es'
  AllFailures-at es es' e h = rw (sym e) h

  spawned-IsSound : IsSound (spawned cfg)
  spawned-IsSound =
      (Runs-if cfg.enable_http serving refl, Runs-if cfg.enable_grpc listening refl, tt, refl)

  Step-IsSound : {s t : System} → Step cfg has_grpc s t → IsSound s → IsSound t
  Step-IsSound {s} (http_closes q) (a, b, c, d) =
      (Runs-enabled cfg.enable_http s.http serving q a, b, c, d)
  Step-IsSound {s} (http_fails e q) (a, b, c, d) =
      let on = Runs-enabled cfg.enable_http s.http serving q a in ((on, inl (on, e, refl)), b, c, d)
  Step-IsSound {s} (http_sends e q r) (a, b, c, d) =
      let sent = Runs-enabled cfg.enable_http s.http (sending e) q a in
      (sent.0, b, AllFailures-append s.err_chan e c sent.1, d)
  Step-IsSound {s} (grpc_listens q) (a, b, c, d) =
      (a, Runs-enabled cfg.enable_grpc s.grpc listening q b, c, d)
  Step-IsSound {s} (grpc_listen_fails e q) (a, b, c, d) =
      let on = Runs-enabled cfg.enable_grpc s.grpc listening q b in
      (a, (on, inr (on, e, inl refl)), c, d)
  Step-IsSound {s} (grpc_closes q) (a, b, c, d) =
      (a, Runs-enabled cfg.enable_grpc s.grpc serving q b, c, d)
  Step-IsSound {s} (grpc_fails e q) (a, b, c, d) =
      let on = Runs-enabled cfg.enable_grpc s.grpc serving q b in
      (a, (on, inr (on, e, inr refl)), c, d)
  Step-IsSound {s} (grpc_sends e q r) (a, b, c, d) =
      let sent = Runs-enabled cfg.enable_grpc s.grpc (sending e) q b in
      (a, sent.0, AllFailures-append s.err_chan e c sent.1, d)
  Step-IsSound {s} cancels (a, b, c, d) = (a, b, c, Accounts-cancelled s.cancelled s.calls s.main d)
  Step-IsSound {s} (sees_done q r) (a, b, c, d) =
      (a, b, c, (r, Accounts-at s.cancelled s.calls s.main selecting q d))
  Step-IsSound {s} (sees_error e es q r) (a, b, c, d) =
      let failures = AllFailures-at s.err_chan (e ∷ es) r c in
      (a, b, failures.1, (failures.0, Accounts-at s.cancelled s.calls s.main selecting q d))
  Step-IsSound {s} (stops_http q) (a, b, c, d) =
      let stopping = Accounts-at s.cancelled s.calls s.main stopping_http q d in
      (a, b, c, (stopping.0, ap (λ l. l ++ http_calls cfg) stopping.1))
  Step-IsSound {s} (stops_grpc q) (a, b, c, d) =
      let stopping = Accounts-at s.cancelled s.calls s.main stopping_grpc q d in
      (a, b, c, (stopping.0, ap (λ l. l ++ grpc_calls has_grpc) stopping.1))

  Reach-IsSound : {s t : System} → IsSound s → Reach cfg has_grpc s t → IsSound t
  Reach-IsSound h here = h
  Reach-IsSound h (next r st) = Step-IsSound st (Reach-IsSound h r)

  exited-Accounts :
      (t : System) (result : Option String)
      → Reach cfg has_grpc (spawned cfg) t
      → t.main ≡ exited result
      → ((result ≡ none) × (t.cancelled ≡ true) × (t.calls ≡ http_calls cfg ++ grpc_calls has_grpc))
        ⊎ ((e : String) × (result ≡ some e) × IsFailure e × (t.calls ≡ []))
  exited-Accounts t none r q =
      let (a, b, c, d) = Reach-IsSound spawned-IsSound r in
      let done = Accounts-at t.cancelled t.calls t.main (exited none) q d in
      inl (refl, done.0, done.1)
  exited-Accounts t (some e) r q =
      let (a, b, c, d) = Reach-IsSound spawned-IsSound r in
      let done = Accounts-at t.cancelled t.calls t.main (exited (some e)) q d in
      inr (e, refl, done.0, done.1)

  calls-expected : http_calls cfg ++ grpc_calls has_grpc ≡ expected cfg.enable_http has_grpc
  calls-expected = elim (Bool-cases cfg.enable_http) [
    | inl on ↦ elim (Bool-cases has_grpc) [
      | inl has ↦ rw (on, has) refl
      | inr has_none ↦ rw (on, has_none) refl
    ]
    | inr off ↦ elim (Bool-cases has_grpc) [
      | inl has ↦ rw (off, has) refl
      | inr has_none ↦ rw (off, has_none) refl
    ]
  ]

  start_servers-cases :
      (mtls : Option String)
      → (start_servers cfg mtls ≡ running (spawned cfg))
        ⊎ ((e : String) × IsRefusal mtls e × (start_servers cfg mtls ≡ not_started e))
  unfolding start_servers
  start_servers-cases mtls = elim (Bool-cases cfg.enable_http) [
    | inr off ↦ inl (rw off refl)
    | inl on ↦ elim (Bool-cases cfg.http_mtls_enabled) [
      | inr plain ↦ inl (rw (on, plain) refl)
      | inl mutual_ ↦ elim (Option-cases mtls) [
        | inl loaded ↦ inl (rw (on, mutual_, loaded) refl)
        | inr (x, failed) ↦ inr (
          str_append "failed to load HTTP mTLS config: " x,
          (on, mutual_, x, failed, refl),
          rw (on, mutual_, failed) refl,
        )
      ]
    ]
  ]

  -- However the goroutines, the servers and the signal interleave, `Start` returns in one of two ways. It
  -- returns nil: then the context was cancelled, and it has called `Shutdown` exactly if HTTP is enabled,
  -- and after it `GracefulStop` exactly if there is a gRPC server. Or it returns an error: then this is
  -- the failure of a server that is enabled, or that of loading the certificates where HTTP and mTLS are
  -- enabled, and no server was stopped.
  pub Returned-Accounts :
      (mtls result : Option String) (cancelled : Bool) (calls : List ShutdownCall)
      → Returned mtls result cancelled calls
      → ((result ≡ none) × (cancelled ≡ true) × (calls ≡ expected cfg.enable_http has_grpc))
        ⊎ ((e : String) × (result ≡ some e) × (IsFailure e ⊎ IsRefusal mtls e) × (calls ≡ []))
  Returned-Accounts mtls result cancelled calls (refuses e b h) = elim (start_servers-cases mtls) [
    | inl starts ↦ absurd (cc (starts, h))
    | inr (e', refusal, refused) ↦
        let same : e' ≡ e = cc (refused, h) in inr (e, refl, inr (rw same at refusal), refl)
  ]
  Returned-Accounts mtls result cancelled calls (ends s t o h r q) =
      elim (start_servers-cases mtls) [
        | inr (e, refusal, refused) ↦ absurd (cc (refused, h))
        | inl starts ↦
            let begun : s ≡ spawned cfg = cc (starts, h) in
            elim (exited-Accounts t o (subst (λ s. Reach cfg has_grpc s t) begun r) q) [
              | inl (clean, done, called) ↦ inl (clean, done, called ∙ calls-expected)
              | inr (e, failed, failure, none_called) ↦ inr (e, failed, inl failure, none_called)
            ]
      ]
