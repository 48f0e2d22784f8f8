-- ===== src/Middleware/Gate.antt =====
-- What the middlewares of server/middleware that turn requests away have in common, and how they are put
-- behind one another.
pub mod Limits
pub mod Service
pub mod Tokens
mod Tests
use Prim.Native.String.{◌++◌ as str_append}
use helix_fnd.Prelude.{ℕ, ◌≡◌, ◌∙◌, ◌⊎◌, inl, inr, String}
use helix_fnd.Http.{
  Request, Served, Writer, Exit, returned, Handler, set_header, http_error, write_header,
  write_body,
}
use helix_fnd.Response.Statuses.{status_after, HasSent, write_header-sent, write_body-sent}

abbrev pub Refusal : Type 0 → Type 1
Refusal W = Request → Served W → Served W → Type 0

abbrev pub Passage : Type 0 → Type 1
Passage W = Request → Served W → Request → Served W → Type 0

-- What becomes of a request, as a function of the handler behind: it is answered, in the same way whatever
-- this handler is; or the handler runs once, on a request and a state that do not depend on it.
abbrev pub Decided :
    {W : Type 0}
    → (Served W → Type 0)
    → (Request → Served W → Type 0)
    → (Handler W → Exit W)
    → Type 0
Decided {W} Refused Passed run =
    ((s' : Served W) × Refused s' × ((next : Handler W) → run next ≡ returned s'))
    ⊎ ((r' : Request) × (s' : Served W) × Passed r' s'
        × ((next : Handler W) → run next ≡ next r' s'))

pub record IsGate {W : Type 0} (gate : Handler W → Handler W) (Refused : Refusal W)
    (Passed : Passage W) : Type 0 where
  pub decides :
      (r : Request) (s : Served W) → Decided (Refused r s) (Passed r s) (λ next. gate next r s)

abbrev pub EitherRefused : {W : Type 0} → Refusal W → Passage W → Refusal W → Refusal W
EitherRefused {W} Refused Passed Refused' r s s' =
    Refused r s s' ⊎ ((r₁ : Request) × (s₁ : Served W) × Passed r s r₁ s₁ × Refused' r₁ s₁ s')

abbrev pub BothPassed : {W : Type 0} → Passage W → Passage W → Passage W
BothPassed {W} Passed Passed' r s r' s' =
    (r₁ : Request) × (s₁ : Served W) × Passed r s r₁ s₁ × Passed' r₁ s₁ r' s'

module _ {W : Type 0} where
  pub behind :
      {outer inner : Handler W → Handler W} {Refused Refused' : Refusal W}
      {Passed Passed' : Passage W}
      → IsGate outer Refused Passed
      → IsGate inner Refused' Passed'
      → IsGate
          (λ next. outer (inner next))
          (EitherRefused Refused Passed Refused')
          (BothPassed Passed Passed')
  behind {outer} {inner} first second = record {
    decides = λ r s. elim (first.decides r s) [
      | inl (s', refuses, same) ↦ inl (s', inl refuses, λ next. same (inner next))
      | inr (r₁, s₁, passes, same) ↦ elim (second.decides r₁ s₁) [
        | inl (s', refuses, same') ↦
            inl (s', inr (r₁, s₁, passes, refuses), λ next. same (inner next) ∙ same' next)
        | inr (r', s', passes', same') ↦
            inr (r', s', (r₁, s₁, passes, passes'), λ next. same (inner next) ∙ same' next)
      ]
    ];
  }

-- `http.Error` sends its status, unless one was sent before.
pub http_error-sent :
    (msg : String) (status : ℕ) (w : Writer)
    → HasSent (http_error msg status w) (status_after w.sent status)
unfolding http_error set_header write_header write_body
http_error-sent msg status w =
    write_body-sent (str_append msg "\n") _
      (write_header status (
        set_header "X-Content-Type-Options" "nosniff"
          (set_header "Content-Type" "text/plain; charset=utf-8" w)))
      (write_header-sent status (
        set_header "X-Content-Type-Options" "nosniff"
          (set_header "Content-Type" "text/plain; charset=utf-8" w)))
