-- ===== src/Crypto/Jwks/Concurrent/Answers.antt =====
-- Where the keys come from that callers get, and what callers wait for.
use std.Path.{subst}
use helix_fnd.Prelude.{◌≡◌, refl, sym, inl, inr, true, false, String, List, ◌∷◌, at_key}
use helix_fnd.Crypto.Jwks.{
  Fetched, CachingClient, Using, Refreshed, refreshed, refresh_failed, Endpoint, received,
}
use helix_fnd.Crypto.Jwks.Keys.{IsServed, Refreshes, received-cases}
use helix_fnd.Crypto.Jwks.Concurrent.{
  reads, misses, waits, rereads, received_one, Shared, joined, landed, respond, Step, elsewhere,
  arrives, looks_up, refreshes, ticks, responds, lands, looks_again, Reach, here, next, unfetched,
}
use helix_fnd.Crypto.Jwks.Concurrent.Callers.{
  IsAmong, AllSound, IsFrom, IsGiven, replaced, AllSound-changed, joined-IsFlying, joined-IsGiven,
  wake-AllSound, looked_up-IsSound, answers-IsSound,
}

module _ {W : Type 0} where
  abbrev Sound : Shared W → Type 0
  Sound s =
      AllSound s.flight s.responses s.callers
      × IsFrom s.responses s.using.client.cache
      × IsGiven s.responses s.flight

  module _ (endpoint : Endpoint W) where
    -- The cache after a refresh has keys of the response only.
    refreshed-IsFrom :
        (u u' : Using W) (response : Fetched) (rs : List Fetched)
        → IsAmong response rs
        → ((kid : String) → Refreshes endpoint u response kid (refreshed u'))
        → IsFrom rs u'.client.cache
    refreshed-IsFrom u u' response rs given cases kid key h = elim (cases kid) [
      | inl (err, e) ↦ absurd (cc e)
      | inr (keys, u'', is_200, same, filled, timed, inl missing) ↦ absurd (cc (same, missing, h))
      | inr (keys, u'', is_200, same, filled, timed, inr (key', found, served)) ↦ (
        keys,
        subst (λ r. IsAmong r rs) is_200 given,
        subst (λ k. IsServed keys kid k) (cc (same, found, h)) served,
      )
    ]

    failed-client :
        (u u' : Using W) (response : Fetched) (err : String)
        → Refreshes endpoint u response "" (refresh_failed err u')
        → u' ≡ u
    failed-client u u' response err (inl (err', e)) = cc e
    failed-client u u' response err (inr (keys, u'', is_200, same, filled, timed, sourced)) =
        absurd (cc same)

    landed-Sound :
        (s : Shared W) (response : Fetched) (outcome : Refreshed W)
        → Sound s
        → IsAmong response s.responses
        → ((kid : String) → Refreshes endpoint s.using response kid outcome)
        → Sound (landed outcome s)
    landed-Sound s response (refreshed u') (a, from, g) given cases = (
      wake-AllSound s.flight s.responses true s.callers a,
      refreshed-IsFrom s.using u' response s.responses given cases,
      tt,
    )
    landed-Sound s response (refresh_failed err u') (a, from, g) given cases = (
      wake-AllSound s.flight s.responses false s.callers a,
      subst (λ u. IsFrom s.responses u.client.cache)
          (sym (failed-client s.using u' response err (cases ""))) from,
      tt,
    )

    Step-Sound : {s t : Shared W} → Step endpoint s t → Sound s → Sound t
    unfolding respond
    Step-Sound {s} (elsewhere w) h = h
    Step-Sound {s} (arrives kid) (a, from, g) = ((tt, a), from, g)
    Step-Sound {s} (looks_up kid before later e) (a, from, g) = (
      replaced s.flight s.responses (reads kid) _ before later
          (subst (AllSound s.flight s.responses) e a)
          (looked_up-IsSound s.flight s.responses s.using.client.cache kid _ from refl),
      from,
      g,
    )
    Step-Sound {s} (refreshes kid before later e) (a, from, g) = (
      replaced (joined s.flight) s.responses (misses kid) (waits kid) before later
          (AllSound-changed s.flight (joined s.flight) s.responses (λ rs. rs) _
            (λ f. joined-IsFlying s.flight) (λ r m. m) (subst (AllSound s.flight s.responses) e a))
          (joined-IsFlying s.flight),
      from,
      joined-IsGiven s.responses s.flight g,
    )
    Step-Sound {s} ticks (a, from, g) = (
      AllSound-changed s.flight (joined s.flight) s.responses (λ rs. rs) s.callers
          (λ f. joined-IsFlying s.flight) (λ r m. m) a,
      from,
      joined-IsGiven s.responses s.flight g,
    )
    Step-Sound {s} (responds e) (a, from, g) =
        let response = (endpoint.get s.using.world).1 in
        (
          AllSound-changed s.flight (received_one response) s.responses (λ rs. response ∷ rs)
              s.callers (λ f. tt) (λ r m. inr m) a,
          (λ kid key h. let (keys, among, served) = from kid key h in (keys, inr among, served)),
          inl refl,
        )
    Step-Sound {s} (lands response e) (a, from, g) =
        landed-Sound s response (received endpoint s.using response) (a, from, g)
          (subst (IsGiven s.responses) e g) (λ kid. received-cases endpoint s.using kid response)
    Step-Sound {s} (looks_again kid before later e) (a, from, g) = (
      replaced s.flight s.responses (rereads kid) _ before later
          (subst (AllSound s.flight s.responses) e a)
          (answers-IsSound s.flight s.responses s.using.client.cache kid _ from refl),
      from,
      g,
    )

    Reach-Sound : {s t : Shared W} → Sound s → Reach endpoint s t → Sound t
    Reach-Sound h here = h
    Reach-Sound h (next r st) = Step-Sound st (Reach-Sound h r)

    unfetched-Sound : (client : CachingClient) (w : W) → Sound (unfetched client w)
    unfolding at_key
    unfetched-Sound client w = (tt, (λ kid key h. absurd (cc h)), tt)

    -- However any number of callers, the refresher and the endpoint interleave: every key that a caller
    -- got was listed under its kid, as an RSA signing key, in a 200 of the endpoint; and a caller waits
    -- only while a refresh is on its way.
    pub Reach-AllSound :
        (client : CachingClient) (w : W) (t : Shared W)
        → Reach endpoint (unfetched client w) t
        → AllSound t.flight t.responses t.callers
    Reach-AllSound client w t r = let (a, from, g) = Reach-Sound (unfetched-Sound client w) r in a
