-- ===== src/Crypto/Jwks/Concurrent/Progress.antt =====
-- What the callers can get to from a state that is reached.
use helix_fnd.Prelude.{
  ℕ, zero, suc, ◌≤◌, ◌<◌, ◌≡◌, refl, ap, sym, ◌∙◌, inl, inr, true, false, String, List, ◌∷◌, ◌++◌,
  arith, at_key,
}
use helix_fnd.Crypto.Jwks.{
  Fetched, CachingClient, Refreshed, refreshed, refresh_failed, Endpoint, received,
}
use helix_fnd.Crypto.Jwks.Concurrent.{
  Caller, reads, misses, waits, rereads, answers, received_one, Shared, joined, looked_up, landed,
  respond, Step, looks_up, refreshes, responds, lands, looks_again, Reach, here, next, unfetched,
}
use helix_fnd.Crypto.Jwks.Concurrent.Answers.{Reach-AllSound}
use helix_fnd.Crypto.Jwks.Concurrent.Callers.{AllSound}
use helix_fnd.Crypto.Jwks.Concurrent.Work.{
  AllAnswered, IsOpen, kids, work, total-replaced, kids-replaced, wake-keeps, looked_up-keeps,
  owed-joined, all_or_first, AllSound-at, Flight-cases,
}

module _ {W : Type 0} (endpoint : Endpoint W) where
  -- A step from `s` after which less is left to do, and no caller is lost.
  abbrev Advance : Shared W → Type 0
  Advance s =
      (t : Shared W) × Step endpoint s t × (work t < work s) × (kids t.callers ≡ kids s.callers)

  landed-keeps :
      (s : Shared W) (response : Fetched) (outcome : Refreshed W)
      → s.flight ≡ received_one response
      → (work (landed outcome s) < work s) × (kids (landed outcome s).callers ≡ kids s.callers)
  landed-keeps s response (refreshed u) e =
      let (less, same) = wake-keeps true s.callers in (rw e (omega arith), same)
  landed-keeps s response (refresh_failed err u) e =
      let (less, same) = wake-keeps false s.callers in (rw e (omega arith), same)

  flies :
      (s : Shared W) (kid : String) (before later : List Caller)
      → AllSound s.flight s.responses s.callers
      → s.callers ≡ before ++ (waits kid ∷ later)
      → Advance s
  unfolding respond
  flies s kid before later sound e =
      elim (Flight-cases s.flight
        (AllSound-at s.flight s.responses before later (waits kid) (rw e at sound))) [
          | inl sent ↦ (respond endpoint s, responds sent, rw sent (omega arith), refl)
          | inr (response, came) ↦
              let (less, same) =
                landed-keeps s response (received endpoint s.using response) came in
              (landed (received endpoint s.using response) s, lands response came, less, same)
        ]

  advances :
      (s : Shared W) (before later : List Caller) (c : Caller)
      → AllSound s.flight s.responses s.callers
      → s.callers ≡ before ++ (c ∷ later)
      → IsOpen c
      → Advance s
  advances s before later (reads kid) sound e more =
      let c' = looked_up kid (at_key s.using.client.cache kid) in
      let (less, same) = looked_up-keeps kid (at_key s.using.client.cache kid) in
      let first = total-replaced before later (reads kid) in
      let second = total-replaced before later c' in
      (
        record s { callers = before ++ (c' ∷ later) },
        looks_up kid before later e,
        rw e (omega arith),
        kids-replaced before later c' (reads kid) same ∙ ap kids (sym e),
      )
  advances s before later (misses kid) sound e more =
      let less = owed-joined s.flight in
      let first = total-replaced before later (misses kid) in
      let second = total-replaced before later (waits kid) in
      (
        record s { flight = joined s.flight; callers = before ++ (waits kid ∷ later) },
        refreshes kid before later e,
        rw e (omega arith),
        kids-replaced before later (waits kid) (misses kid) refl ∙ ap kids (sym e),
      )
  advances s before later (waits kid) sound e more = flies s kid before later sound e
  advances s before later (rereads kid) sound e more =
      let c' = answers kid (at_key s.using.client.cache kid) in
      let first = total-replaced before later (rereads kid) in
      let second = total-replaced before later c' in
      (
        record s { callers = before ++ (c' ∷ later) },
        looks_again kid before later e,
        rw e (omega arith),
        kids-replaced before later c' (rereads kid) refl ∙ ap kids (sym e),
      )
  advances s before later (answers kid key) sound e more = absurd more

  module _ (client : CachingClient) (w : W) where
    answered_in :
        (n : ℕ) (s t : Shared W)
        → Reach endpoint (unfetched client w) t
        → Reach endpoint s t
        → work t ≤ n
        → (t' : Shared W) × Reach endpoint s t'
          × AllAnswered t'.callers
          × (kids t'.callers ≡ kids t.callers)
    answered_in zero s t start r small = elim (all_or_first t.callers) [
      | inl all ↦ (t, r, all, refl)
      | inr (before, later, c, e, more) ↦
          let (t', step, less, same) =
            advances t before later c (Reach-AllSound endpoint client w t start) e more in
          absurd (omega arith)
    ]
    answered_in (suc n) s t start r small = elim (all_or_first t.callers) [
      | inl all ↦ (t, r, all, refl)
      | inr (before, later, c, e, more) ↦
          let (t', step, less, same) =
            advances t before later c (Reach-AllSound endpoint client w t start) e more in
          let (t'', r', all, kept) =
            answered_in n s t' (next start step) (next r step) (omega arith) in
          (t'', r', all, kept ∙ same)
    ]

    -- Nobody is stuck: however the callers, the refresher and the endpoint have interleaved, there are
    -- steps after which each of the callers has its answer, a key or an error, for the kid that it asked for.
    pub Reach-AllAnswered :
        (t : Shared W)
        → Reach endpoint (unfetched client w) t
        → (t' : Shared W) × Reach endpoint t t'
          × AllAnswered t'.callers
          × (kids t'.callers ≡ kids t.callers)
    Reach-AllAnswered t r = answered_in (work t) t t r here (omega arith)
