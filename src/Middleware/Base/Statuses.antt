-- ===== src/Middleware/Base/Statuses.antt =====
-- The status that the access log shows, and the one that the client gets.
use helix_fnd.Prelude.{
  ℕ, ◌≡◌, refl, Bool, true, false, not, ◌&&◌, String, List, [], ◌∷◌, Option, none, some, arith,
}
use helix_fnd.Http.{
  Request, Writer, Served, returned, Handler, set_header, write_header, write_body,
}
use helix_fnd.Middleware.Base.{
  recorded_status, wrapped, unwrapped, AccessEntry, entry_of, logger_middleware, log_request,
}

-- What a handler does to its response.
pub data Op : Type 0 where
  sets : String → String → Op
  sends : ℕ → Op
  writes : String → Op

abbrev pub perform : Op → Writer → Writer
perform (sets key v) w = set_header key v w
perform (sends status) w = write_header status w
perform (writes text) w = write_body text w

unfoldable pub performs : List Op → Writer → Writer
performs [] w = w
performs (op ∷ ops) w = performs ops (perform op w)

-- No status is sent after a status or a part of the body. (`begun`: one was sent already.)
unfoldable pub is_proper : Bool → List Op → Bool
is_proper begun [] = true
is_proper begun (sets key v ∷ ops) = is_proper begun ops
is_proper begun (sends status ∷ ops) = not begun && is_proper true ops
is_proper begun (writes text ∷ ops) = is_proper true ops

-- net/http sends a 200 for a handler that sends nothing.
abbrev pub client_status : Option (ℕ × List (String × String)) → ℕ
client_status none = 200
client_status (some (status, headers)) = status

-- Once something was sent, a proper rest leaves both statuses as they are.
performs_begun :
    (ops : List Op) (w : Writer) (status : ℕ) (headers : List (String × String))
    → w.sent ≡ some (status, headers)
    → is_proper true ops ≡ true
    → ((performs ops w).sent ≡ some (status, headers)) × ((performs ops w).explicit ≡ w.explicit)
unfolding performs is_proper set_header write_header write_body
performs_begun [] w status headers h p = (h, refl)
performs_begun (sets key v ∷ ops) w status headers h p =
    performs_begun ops (set_header key v w) status headers h p
performs_begun (sends n ∷ ops) w status headers h p = ground (arith, p)
performs_begun (writes text ∷ ops) w status headers h p =
    performs_begun ops (write_body text w) status headers (rw h refl) p

performs_proper :
    (ops : List Op) (w : Writer)
    → w.sent ≡ none
    → w.explicit ≡ []
    → is_proper false ops ≡ true
    → recorded_status (performs ops w).explicit ≡ client_status (performs ops w).sent
unfolding performs is_proper set_header write_header write_body
performs_proper [] w none_sent none_called p = rw (none_sent, none_called) refl
performs_proper (sets key v ∷ ops) w none_sent none_called p =
    performs_proper ops (set_header key v w) none_sent none_called p
performs_proper (sends status ∷ ops) w none_sent none_called p =
    let (sent, called) =
      performs_begun ops (write_header status w) status w.header (rw none_sent refl) p in
    rw (sent, called) refl
performs_proper (writes text ∷ ops) w none_sent none_called p =
    let (sent, called) =
      performs_begun ops (write_body text w) 200 w.header (rw none_sent refl) p in
    rw (sent, called, none_called) refl

-- Behind the access log, a handler that returns after sending no status twice nor late is logged once,
-- when it is done, with the status that its client gets.
pub logger_middleware-status :
    {W : Type 0} (now : W → ℕ) (info : AccessEntry → W → W) (next : Handler W) (r : Request)
    (s s₁ : Served W) (ops : List Op)
    → s.writer.sent ≡ none
    → is_proper false ops ≡ true
    → next r (wrapped s) ≡ returned s₁
    → s₁.writer ≡ performs ops (wrapped s).writer
    → (s' : Served W) × (entry : AccessEntry) × (logger_middleware now info next r s ≡ returned s')
      × (s'.world ≡ info entry s₁.world)
      × (entry.path ≡ r.path)
      × (entry.status ≡ client_status s'.writer.sent)
unfolding logger_middleware log_request
logger_middleware-status now info next r s s₁ ops none_sent p runs does = (
  unwrapped s.writer.explicit (record s₁ { world = info (entry_of now info r s s₁) s₁.world }),
  entry_of now info r s s₁,
  rw runs refl,
  refl,
  refl,
  rw does (performs_proper ops (wrapped s).writer none_sent refl p),
)
