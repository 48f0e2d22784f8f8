-- ===== src/Server/Room.antt =====
-- The error channel of `Start` has room.
use helix_fnd.Prelude.{
  ℕ, ◌+◌, ◌≤◌, ◌<◌, ◌≡◌, refl, ap, ◌⊎◌, inl, inr, Bool, String, [], ◌∷◌, ◌++◌, length,
  length-append, arith,
}
use helix_fnd.Server.{
  ServerConfig, Worker, absent, listening, serving, sending, finished, System, err_capacity,
  spawned, Step, http_closes, http_fails, http_sends, grpc_listens, grpc_listen_fails, grpc_closes,
  grpc_fails, grpc_sends, cancels, sees_done, sees_error, stops_http, stops_grpc, Reach, here, next,
}

-- How many errors a goroutine may still send.
abbrev pub owed : Worker → ℕ
owed absent = 0
owed listening = 1
owed serving = 1
owed (sending e) = 1
owed finished = 0

abbrev pub HasRoom : System → Type 0
HasRoom s = length s.err_chan + owed s.http + owed s.grpc ≤ err_capacity

module _ (cfg : ServerConfig) (has_grpc : Bool) where
  spawned-HasRoom : HasRoom (spawned cfg)
  spawned-HasRoom = ground arith

  Step-HasRoom : {s t : System} → Step cfg has_grpc s t → HasRoom s → HasRoom t
  Step-HasRoom {s} (http_closes e) h = ground (arith, ap owed e)
  Step-HasRoom {s} (http_fails e q) h = ground (arith, ap owed q)
  Step-HasRoom {s} (http_sends e q r) h =
      ground (arith, ap owed q, length-append s.err_chan (e ∷ []))
  Step-HasRoom {s} (grpc_listens e) h = ground (arith, ap owed e)
  Step-HasRoom {s} (grpc_listen_fails e q) h = ground (arith, ap owed q)
  Step-HasRoom {s} (grpc_closes e) h = ground (arith, ap owed e)
  Step-HasRoom {s} (grpc_fails e q) h = ground (arith, ap owed q)
  Step-HasRoom {s} (grpc_sends e q r) h =
      ground (arith, ap owed q, length-append s.err_chan (e ∷ []))
  Step-HasRoom {s} cancels h = h
  Step-HasRoom {s} (sees_done q r) h = h
  Step-HasRoom {s} (sees_error e es q r) h = ground (arith, ap length r)
  Step-HasRoom {s} (stops_http q) h = h
  Step-HasRoom {s} (stops_grpc q) h = h

  Reach-HasRoom : {s t : System} → HasRoom s → Reach cfg has_grpc s t → HasRoom t
  Reach-HasRoom h here = h
  Reach-HasRoom h (next r st) = Step-HasRoom st (Reach-HasRoom h r)

  -- A goroutine of `Start` that has an error to send is never blocked by it, also when `Start` has
  -- returned and nobody receives: it has a step in which the error goes into the channel, with room for
  -- it, and the goroutine finishes.
  pub sends_at_once :
      (t : System) (e : String)
      → Reach cfg has_grpc (spawned cfg) t
      → (t.http ≡ sending e) ⊎ (t.grpc ≡ sending e)
      → (t' : System) × Step cfg has_grpc t t'
        × (t'.err_chan ≡ t.err_chan ++ (e ∷ []))
        × (length t'.err_chan ≤ err_capacity)
        × ((t'.http ≡ finished) ⊎ (t'.grpc ≡ finished))
  sends_at_once t e r (inl q) =
      let room = Reach-HasRoom spawned-HasRoom r in
      let free : length t.err_chan < err_capacity = ground (arith, ap owed q) in
      (_, http_sends e q free, refl, ground (arith, length-append t.err_chan (e ∷ [])), inl refl)
  sends_at_once t e r (inr q) =
      let room = Reach-HasRoom spawned-HasRoom r in
      let free : length t.err_chan < err_capacity = ground (arith, ap owed q) in
      (_, grpc_sends e q free, refl, ground (arith, length-append t.err_chan (e ∷ [])), inr refl)
