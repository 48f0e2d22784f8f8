-- ===== src/Server/Health.antt =====
-- server/health/checker.go. The pool's ping and the JSON encoder are parameters.
use helix_fnd.Prelude.{
  ℕ, ◌≡◌, refl, Bool, true, false, String, List, [], ◌∷◌, Option, none, some, if◌then◌else◌,
}
use helix_fnd.Http.{
  Request, Served, Exit, returned, Handler, set_header, write_header, write_body, on_writer, logged,
}
use helix_fnd.Response.Statuses.{status_after, HasSent, write_header-sent, write_body-sent}

-- `HandleHealth`.
unfoldable pub handle_health : {W : Type 0} → Handler W
handle_health r s = returned (on_writer (λ w. write_body "OK" (write_header 200 w)) s)

-- `encode` is the JSON of a map with these entries, or an error.
module _ {W : Type 0} (ping : W → W × Bool) (encode : List (String × String) → Option String) where
  written : Option String → Served W → Served W
  written none s = logged "failed to write health response" s
  written (some text) s = on_writer (write_body text) s

  answer : String → ℕ → Served W → Exit W
  unfolding written
  answer status code s = returned (
      written (encode (("status", status) ∷ ("db", status) ∷ []))
        (on_writer (λ w. write_header code (set_header "Content-Type" "application/json" w)) s))

  judged : Bool → Served W → Exit W
  unfolding answer
  judged true s = answer "UP" 200 s
  judged false s =
      answer "DOWN" 503 (logged "readiness check failed: database unreachable or slow" s)

  -- `HandleReadiness`; the ping has one second.
  unfoldable pub handle_readiness : Handler W
  unfolding judged
  handle_readiness r s =
      let (w, reachable) = ping s.world in judged reachable (record s { world = w })

  written-sent :
      (text : Option String) (status : ℕ) (s : Served W)
      → HasSent s.writer status
      → HasSent (written text s).writer status
  unfolding written
  written-sent none status s h = h
  written-sent (some text) status s h = write_body-sent text status s.writer h

  IsAnswered : Served W → ℕ → Exit W → Type 0
  IsAnswered s code outcome =
      (s' : Served W) × (outcome ≡ returned s')
      × HasSent s'.writer (status_after s.writer.sent code)

  answer-IsAnswered :
      (status : String) (code : ℕ) (s : Served W) → IsAnswered s code (answer status code s)
  unfolding IsAnswered answer set_header
  answer-IsAnswered status code s = (
    _,
    refl,
    written-sent (encode _) _ _
        (write_header-sent code (set_header "Content-Type" "application/json" s.writer)),
  )

  judged-IsAnswered :
      (reachable : Bool) (s : Served W)
      → IsAnswered s (if reachable then 200 else 503) (judged reachable s)
  unfolding IsAnswered judged
  judged-IsAnswered true s = answer-IsAnswered "UP" 200 s
  judged-IsAnswered false s =
      answer-IsAnswered "DOWN" 503 (logged "readiness check failed: database unreachable or slow" s)

  -- The probe always gets an answer: 200 exactly if the database answered the ping, and else 503, whether
  -- or not the body can be encoded. (Unless something was sent before.)
  pub handle_readiness-status :
      (r : Request) (s : Served W)
      → (s' : Served W) × (handle_readiness r s ≡ returned s')
        × HasSent s'.writer (status_after s.writer.sent (if (ping s.world).1 then 200 else 503))
  unfolding handle_readiness IsAnswered
  handle_readiness-status r s =
      judged-IsAnswered (ping s.world).1 (record s { world = (ping s.world).0 })
