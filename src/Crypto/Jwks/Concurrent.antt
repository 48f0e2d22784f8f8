-- ===== src/Crypto/Jwks/Concurrent.antt =====
-- The client of crypto/jwks_client.go under many callers at once: the lookups of keyfunc between their
-- locks, and the refreshes, which singleflight joins into one request. (What is modelled of singleflight is
-- what it documents: one call at a time, whose result its other callers wait for and share.)
pub mod Answers
pub mod Callers
pub mod Progress
pub mod Work
mod Tests
use helix_fnd.Prelude.{
  ◌≡◌, Bool, true, false, String, List, [], ◌∷◌, ◌++◌, Option, none, some, at_key, if◌then◌else◌,
}
use helix_fnd.Crypto.Jwks.{
  PublicKey, Fetched, CachingClient, Using, Refreshed, refreshed, refresh_failed, Endpoint,
  received,
}

-- A call of keyfunc for a kid: before its first lookup, before `doRefresh`, in `doRefresh`, before its
-- second lookup, and with its answer, which is `none` for an error.
pub data Caller : Type 0 where
  reads : String → Caller
  misses : String → Caller
  waits : String → Caller
  rereads : String → Caller
  answers : String → Option PublicKey → Caller

-- The call of `fetchKeys` that is on its way: none, one that has sent its request, or one that has the
-- response.
pub data Flight : Type 0 where
  idle : Flight
  requesting : Flight
  received_one : Fetched → Flight

-- The client, with the responses that the endpoint has given to it.
pub record Shared (W : Type 0) : Type 0 where
  pub using : Using W
  pub flight : Flight
  pub callers : List Caller
  pub responses : List Fetched

-- `sf.Do`: starts a flight, or joins it.
abbrev pub joined : Flight → Flight
joined idle = requesting
joined requesting = requesting
joined (received_one response) = received_one response

-- The first lookup, under the read lock.
abbrev pub looked_up : String → Option PublicKey → Caller
looked_up kid (some key) = answers kid (some key)
looked_up kid none = misses kid

-- What the end of the flight means to a caller.
abbrev pub woken : Bool → Caller → Caller
woken succeeded (waits kid) = if succeeded then rereads kid else answers kid none
woken succeeded caller = caller

unfoldable pub wake : Bool → List Caller → List Caller
wake succeeded [] = []
wake succeeded (c ∷ cs) = woken succeeded c ∷ wake succeeded cs

module _ {W : Type 0} where
  abbrev pub landed : Refreshed W → Shared W → Shared W
  landed (refreshed u) s = record s { using = u; flight = idle; callers = wake true s.callers }
  landed (refresh_failed err u) s = record s {
    using = u;
    flight = idle;
    callers = wake false s.callers;
  }

  module _ (endpoint : Endpoint W) where
    -- The response comes, while others may read the old cache.
    unfoldable pub respond : Shared W → Shared W
    respond s =
        let (w, response) = endpoint.get s.using.world in
        record s {
          using = record s.using { world = w };
          flight = received_one response;
          responses = response ∷ s.responses;
        }

    pub data Step (s : Shared W) : Shared W → Type 0 where
      elsewhere : (w : W) → Step s (record s { using = record s.using { world = w } })
      arrives : (kid : String) → Step s (record s { callers = reads kid ∷ s.callers })
      looks_up :
          (kid : String) (before later : List Caller)
          → s.callers ≡ before ++ (reads kid ∷ later)
          → Step s (record s {
            callers = before ++ (looked_up kid (at_key s.using.client.cache kid) ∷ later);
          })
      refreshes :
          (kid : String) (before later : List Caller)
          → s.callers ≡ before ++ (misses kid ∷ later)
          → Step s (record s { flight = joined s.flight; callers = before ++ (waits kid ∷ later) })
      -- The background refresher.
      ticks : Step s (record s { flight = joined s.flight })
      responds : s.flight ≡ requesting → Step s (respond s)
      lands :
          (response : Fetched)
          → s.flight ≡ received_one response
          → Step s (landed (received endpoint s.using response) s)
      looks_again :
          (kid : String) (before later : List Caller)
          → s.callers ≡ before ++ (rereads kid ∷ later)
          → Step s (record s {
            callers = before ++ (answers kid (at_key s.using.client.cache kid) ∷ later);
          })

    pub data Reach (s : Shared W) : Shared W → Type 0 where
      here : Reach s s
      next : {t u : Shared W} → Reach s t → Step t u → Reach s u

-- A client before its first fetch, which the constructor waits for.
abbrev pub unfetched : {W : Type 0} → CachingClient → W → Shared W
unfetched client w = record {
  using = record { client = record client { cache = [] }; world = w; stale_logs = 0 };
  flight = idle;
  callers = [];
  responses = [];
}
