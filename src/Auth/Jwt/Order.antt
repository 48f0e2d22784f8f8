-- ===== src/Auth/Jwt/Order.antt =====
-- The JWT strategy on headers that are ranged over in two orders.
use mathlib.Core.List.{Perm}
use helix_fnd.Prelude.{◌≡◌, refl, []}
use helix_fnd.Context.{Context}
use helix_fnd.Text.{all_tokens}
use helix_fnd.Http.{Request}
use helix_fnd.Grpc.{Call}
use helix_fnd.Auth.{AuthPayload, flat_headers, http_payload, grpc_payload}
use helix_fnd.Auth.Headers.{Headers, IsDistinct, payload_header-perm}
use helix_fnd.Auth.Jwt.{Verifier, jwt_authenticate}

module _ {W : Type 0} (verify_token : Verifier W) (h h' : Headers) (order : Perm h h')
    (distinct : IsDistinct h) where
  authenticates_alike :
      (ctx : Context) (p p' : AuthPayload) (w : W)
      → p.headers ≡ flat_headers h []
      → p'.headers ≡ flat_headers h' []
      → jwt_authenticate verify_token ctx p w ≡ jwt_authenticate verify_token ctx p' w
  unfolding jwt_authenticate all_tokens
  authenticates_alike ctx p p' w e e' =
      rw (payload_header-perm h h' p p' "Authorization" refl order distinct e e') refl

  -- The strategy comes to the same end, and does the same to its surroundings, for the same headers in any
  -- two orders, over HTTP and over gRPC, as long as no two of them have one canonical name.
  pub jwt_authenticate-perm :
      (ctx : Context) (r : Request) (call : Call) (w : W)
      → (jwt_authenticate verify_token ctx (http_payload (record r { header = h })) w
          ≡ jwt_authenticate verify_token ctx (http_payload (record r { header = h' })) w)
        × (jwt_authenticate verify_token ctx (grpc_payload call h) w
            ≡ jwt_authenticate verify_token ctx (grpc_payload call h') w)
  jwt_authenticate-perm ctx r call w = (
    authenticates_alike ctx (http_payload (record r { header = h }))
        (http_payload (record r { header = h' })) w refl refl,
    authenticates_alike ctx (grpc_payload call h) (grpc_payload call h') w refl refl,
  )
