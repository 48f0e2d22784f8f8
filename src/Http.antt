-- ===== src/Http.antt =====
-- What the code uses of Go's net/http and net: requests, response writers, handlers that may panic,
-- `http.Error` and `net.SplitHostPort`.
use Prim.Native.Char.{code}
use Prim.Native.String
use helix_fnd.Prelude.{
  ℕ, ◌≡◌, refl, Bool, false, ◌&&◌, ◌||◌, not, String, List, [], ◌∷◌, ◌++◌, Option, none, some,
  at_key, assign, ◌==◌, if◌then◌else◌,
}
use helix_fnd.Context.{Context}
use helix_fnd.Text.{canonical_header_key}

pub record Request : Type 0 where
  pub method : String
  pub path : String
  pub remote_addr : String
  pub header : List (String × List String)  -- by canonical key
  pub ctx : Context

-- `r.Header.Get`: the first value, or the empty text.
abbrev first_value : Option (List String) → String
first_value (some (v ∷ vs)) = v
first_value _ = ""

unfoldable pub get_header : Request → String → String
get_header r key = first_value (at_key r.header (canonical_header_key key))

-- A response writer: the header map, the status and headers that were sent, the body written, and the
-- statuses of the calls of `WriteHeader`, the latest first.
pub record Writer : Type 0 where
  pub header : List (String × String)
  pub sent : Option (ℕ × List (String × String))
  pub body : List String
  pub explicit : List ℕ

abbrev pub blank : Writer
blank = record { header = []; sent = none; body = []; explicit = [] }

unfoldable pub set_header : String → String → Writer → Writer
set_header key v w = record w { header = assign w.header (canonical_header_key key) v }

-- Only the first call sends.
abbrev first_sent :
    Option (ℕ × List (String × String))
    → ℕ × List (String × String)
    → Option (ℕ × List (String × String))
first_sent none s = some s
first_sent (some s) _ = some s

unfoldable pub write_header : ℕ → Writer → Writer
write_header status w = record w {
  sent = first_sent w.sent (status, w.header);
  explicit = status ∷ w.explicit;
}

-- `w.Write`: sends a 200 first if nothing was sent.
unfoldable pub write_body : String → Writer → Writer
write_body text w = record w {
  sent = first_sent w.sent (200, w.header);
  body = w.body ++ (text ∷ []);
}

unfoldable pub http_error : String → ℕ → Writer → Writer
unfolding set_header write_header write_body
http_error msg status w = write_body (String.◌++◌ msg "\n") (
    write_header status (
      set_header "X-Content-Type-Options" "nosniff"
        (set_header "Content-Type" "text/plain; charset=utf-8" w)))

-- A handler's state: the surroundings, the response, and the lines logged, the latest first.
pub record Served (W : Type 0) : Type 0 where
  pub world : W
  pub writer : Writer
  pub logs : List String

pub data Exit (W : Type 0) : Type 0 where
  returned : Served W → Exit W
  panicked : String → Served W → Exit W

abbrev pub Handler : Type 0 → Type 0
Handler W = Request → Served W → Exit W

abbrev pub on_writer : {W : Type 0} → (Writer → Writer) → Served W → Served W
on_writer f s = record s { writer = f s.writer }

abbrev pub logged : {W : Type 0} → String → Served W → Served W
logged line s = record s { logs = line ∷ s.logs }

abbrev pub with_ctx : Request → Context → Request
with_ctx r ctx = record r { ctx = ctx }

-- `net.SplitHostPort`, its host only; `none` is its error.
has_char : ℕ → String → Bool
has_char n String.[] = false
has_char n (String.◌∷◌ c s) = code c == n || has_char n s

abbrev prepend : Prim.Native.Char.Char → Option String → Option String
prepend c none = none
prepend c (some s) = some (String.◌∷◌ c s)

-- The text before the last occurrence.
before_last : ℕ → String → Option String
unfolding has_char
before_last n String.[] = none
before_last n (String.◌∷◌ c s) =
    let longer = prepend c (before_last n s) in
    if has_char n s then longer else if code c == n then some "" else none

-- The text before and after the first occurrence.
abbrev cons_fst : Prim.Native.Char.Char → Option (String × String) → Option (String × String)
cons_fst c none = none
cons_fst c (some (s, t)) = some (String.◌∷◌ c s, t)

cut_at : ℕ → String → Option (String × String)
cut_at n String.[] = none
cut_at n (String.◌∷◌ c s) =
    let later = cons_fst c (cut_at n s) in if code c == n then some ("", s) else later

-- What follows the closing bracket: a colon and a port, with no further colon or bracket.
is_port : String → Bool
unfolding has_char
is_port String.[] = false
is_port (String.◌∷◌ c s) = code c == b':' && not (has_char b':' s) && not (has_char b']' s)

bracketed : String → Option String
unfolding cut_at is_port has_char
bracketed s = elim (cut_at b']' s) [
  | none ↦ none
  | some (host, rest) ↦ if is_port rest && not (has_char b'[' s) then some host else none
]

plain : String → Option String
unfolding before_last has_char
plain s = elim (before_last b':' s) [
  | none ↦ none
  | some host ↦ if has_char b':' host || has_char b'[' s || has_char b']' s then none else some host
]

unfoldable pub split_host : String → Option String
unfolding bracketed plain
split_host String.[] = none
split_host (String.◌∷◌ c s) = if code c == b'[' then bracketed s else plain (String.◌∷◌ c s)

tests :
    (split_host "10.0.0.7:443" ≡ some "10.0.0.7")
    × (split_host "[::1]:80" ≡ some "::1")
    × (split_host "::1" ≡ none)
    × (split_host "localhost" ≡ none)
unfolding split_host
tests = (refl, refl, refl, refl)
