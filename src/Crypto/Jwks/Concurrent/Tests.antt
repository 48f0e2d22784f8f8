-- ===== src/Crypto/Jwks/Concurrent/Tests.antt =====
-- Two callers that miss the same key share one request.
use helix_fnd.Prelude.{ℕ, ◌≡◌, refl, [], ◌∷◌, at_key, assign}
use helix_fnd.Crypto.Base64.{decode_string}
use helix_fnd.Crypto.Jwks.{new_cache, to_rsa_public_key, received}
use helix_fnd.Crypto.Jwks.Samples.{k1, one_key, empty_client}
use helix_fnd.Crypto.Jwks.Concurrent.{
  reads, misses, waits, rereads, answers, idle, requesting, Shared, landed, respond, wake, arrives,
  looks_up, refreshes, responds, lands, looks_again, Reach, here, next, unfetched,
}
use helix_fnd.Crypto.Jwks.Concurrent.Callers.{AllSound}
use helix_fnd.Crypto.Jwks.Concurrent.Answers.{Reach-AllSound}
use helix_fnd.Crypto.Jwks.Concurrent.Progress.{Reach-AllAnswered}
use helix_fnd.Crypto.Jwks.Concurrent.Work.{AllAnswered, kids}

abbrev unused : Shared ℕ
unused = unfetched empty_client.client 0

abbrev both_wait : Shared ℕ
both_wait = record unused { flight = requesting; callers = waits "k1" ∷ waits "k1" ∷ [] }

both_wait-reached : Reach one_key unused both_wait
unfolding at_key
both_wait-reached =
    next
      (next
        (next
          (next (next (next here (arrives "k1")) (arrives "k1"))
            (looks_up "k1" [] (reads "k1" ∷ []) refl))
          (looks_up "k1" (misses "k1" ∷ []) [] refl))
        (refreshes "k1" [] (misses "k1" ∷ []) refl))
      (refreshes "k1" (waits "k1" ∷ []) [] refl)

abbrev responded_to : Shared ℕ
responded_to = respond one_key both_wait

abbrev landed_it : Shared ℕ
landed_it =
    landed (received one_key responded_to.using (one_key.get both_wait.using.world).1) responded_to

abbrev answered : Shared ℕ
answered = record landed_it {
  callers = answers "k1" (at_key landed_it.using.client.cache "k1") ∷ rereads "k1" ∷ [];
}

answered-reached : Reach one_key unused answered
unfolding at_key respond received new_cache to_rsa_public_key assign wake decode_string
answered-reached =
    next
      (next (next both_wait-reached (responds refl))
        (lands (one_key.get both_wait.using.world).1 refl))
      (looks_again "k1" [] (rereads "k1" ∷ []) refl)

-- One request was sent, and the first of the two has the key.
one_request :
    (answered.using.world ≡ 1)
    × (answered.flight ≡ idle)
    × (at_key answered.using.client.cache "k1" ≡ to_rsa_public_key k1)
unfolding respond received new_cache to_rsa_public_key assign wake at_key decode_string
one_request = (refl, refl, refl)

Reach-AllSound_example : AllSound answered.flight answered.responses answered.callers
Reach-AllSound_example = Reach-AllSound one_key empty_client.client 0 answered answered-reached

Reach-AllAnswered_example :
    (t' : Shared ℕ) × Reach one_key both_wait t'
    × AllAnswered t'.callers
    × (kids t'.callers ≡ "k1" ∷ "k1" ∷ [])
Reach-AllAnswered_example =
    Reach-AllAnswered one_key empty_client.client 0 both_wait both_wait-reached
