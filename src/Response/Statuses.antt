-- ===== src/Response/Statuses.antt =====
-- The status that a response ends up with, and what else it changes.
use helix_fnd.Prelude.{ℕ, ◌≡◌, refl, String, List, ◌∷◌, Option, none, some}
use helix_fnd.Http.{Request, Served, Writer, write_header, write_body, set_header}
use helix_fnd.Response.{Envelope, write, encoded, error_json, error_json_with_details}

-- The status of a response to which `status` is written.
abbrev pub status_after : Option (ℕ × List (String × String)) → ℕ → ℕ
status_after none status = status
status_after (some (earlier, headers)) status = earlier

abbrev pub HasSent : Writer → ℕ → Type 0
HasSent w status = (headers : List (String × String)) × (w.sent ≡ some (status, headers))

pub write_header-sent :
    (status : ℕ) (w : Writer) → HasSent (write_header status w) (status_after w.sent status)
unfolding write_header
write_header-sent status w =
    elim w.sent
      as (λ sent.
        HasSent (write_header status (record w { sent = sent })) (status_after sent status)) [
          | none ↦ (w.header, refl)
          | some (earlier, headers) ↦ (headers, refl)
        ]

pub write_body-sent :
    (text : String) (status : ℕ) (w : Writer)
    → HasSent w status
    → HasSent (write_body text w) status
unfolding write_body
write_body-sent text status w (headers, h) = (headers, rw h refl)

module _ {V W : Type 0} (encode : Envelope V → Option String) where
  encoded-sent :
      (text : Option String) (status : ℕ) (s : Served W)
      → HasSent s.writer status
      → HasSent (encoded encode text s).writer status
  unfolding encoded
  encoded-sent none status s h = h
  encoded-sent (some text) status s h = write_body-sent text status s.writer h

  -- A response that is written has the status given, unless one was sent before: then that one stays.
  -- It is so whether or not the envelope can be encoded.
  pub write-status :
      (status : ℕ) (env : Envelope V) (s : Served W)
      → HasSent (write encode status env s).writer (status_after s.writer.sent status)
  unfolding write set_header
  write-status status env s =
      encoded-sent (encode env) _ _
        (write_header-sent status (set_header "Content-Type" "application/json" s.writer))

  encoded-keeps :
      (text : Option String) (s : Served W)
      → ((encoded encode text s).world ≡ s.world)
        × ((encoded encode text s).writer.explicit ≡ s.writer.explicit)
  unfolding encoded write_body
  encoded-keeps none s = (refl, refl)
  encoded-keeps (some text) s = (refl, refl)

  -- An error response leaves the surroundings as they are, and calls `WriteHeader` once.
  pub error_json-keeps :
      (r : Request) (status : ℕ) (code message : String) (s : Served W)
      → ((error_json encode r status code message s).world ≡ s.world)
        × ((error_json encode r status code message s).writer.explicit ≡ status ∷ s.writer.explicit)
  unfolding error_json error_json_with_details write write_header set_header
  error_json-keeps r status code message s = encoded-keeps (encode _) _

  -- So does an error response.
  pub error_json-status :
      (r : Request) (status : ℕ) (code message : String) (s : Served W)
      → HasSent
          (error_json encode r status code message s).writer
          (status_after s.writer.sent status)
  unfolding error_json error_json_with_details
  error_json-status r status code message s = write-status status _ s
