-- ===== src/Middleware/Base/Cardinality.antt =====
-- Which values the path label of the metrics takes.
use text.Mathlib.Text.{◌==◌ as str_eq}
use text.Mathlib.TextEquality.{eq_iff}
use helix_fnd.Prelude.{
  ℕ, ◌≡◌, refl, ◌⊎◌, inl, inr, false, String, List, [], ◌∷◌, Option, none, some, ◌==◌, Bool-cases,
}
use helix_fnd.Http.{Request, Served, Exit, returned, panicked, Handler, blank}
use helix_fnd.Middleware.Base.{Labels, Metrics, path_label, unmatched, metrics_middleware, measured}

abbrev pub IsOneOf : List String → String → Type 0
IsOneOf [] s = ⊥
IsOneOf (p ∷ ps) s = (s ≡ p) ⊎ IsOneOf ps s

-- The router's pattern of a request: no context, no pattern, or one of those that were registered.
abbrev pub IsRouted : List String → Option String → Type 0
IsRouted patterns none = Unit
IsRouted patterns (some p) = (p ≡ "") ⊎ IsOneOf patterns p

abbrev pub with_constants : List String → List String
with_constants patterns = "not_found" ∷ "unmatched_route" ∷ patterns

unmatched-IsOneOf :
    (patterns : List String) (status : ℕ) → IsOneOf (with_constants patterns) (unmatched status)
unmatched-IsOneOf patterns status = elim (Bool-cases (status == 404)) [
  | inl missing ↦ rw missing (inl refl)
  | inr other ↦ rw other (inr (inl refl))
]

registered :
    (patterns : List String) (p : String)
    → str_eq p "" ≡ false
    → IsRouted patterns (some p)
    → IsOneOf patterns p
registered patterns p given (inl e) = let empty = (eq_iff p "").1 e in cc
registered patterns p given (inr h) = h

path_label-IsOneOf :
    (patterns : List String) (p : Option String) (status : ℕ)
    → IsRouted patterns p
    → IsOneOf (with_constants patterns) (path_label p status)
unfolding path_label
path_label-IsOneOf patterns none status h = unmatched-IsOneOf patterns status
path_label-IsOneOf patterns (some p) status h = elim (Bool-cases (str_eq p "")) [
  | inl empty ↦ rw empty (unmatched-IsOneOf patterns status)
  | inr given ↦ rw given (inr (inr (registered patterns p given h)))
]

-- The surroundings with the labels under which requests were counted.
pub record Counted (W : Type 0) : Type 0 where
  pub inner : W
  pub labels : List Labels

abbrev pub counting : {W : Type 0} → Metrics W → Metrics (Counted W)
counting m = record {
  now = λ w. m.now w.inner;
  inc = λ l w. record { inner = m.inc l w.inner; labels = l ∷ w.labels };
  observe = λ l d w. record w { inner = m.observe l d w.inner };
  route_pattern = λ r w. m.route_pattern r w.inner;
  wrapper_status = m.wrapper_status;
}

abbrev at_world : {V W : Type 0} → Served V → W → Served W
at_world s w = record { world = w; writer = s.writer; logs = s.logs }

-- A handler does not count requests.
abbrev carried : {W : Type 0} → List Labels → Exit W → Exit (Counted W)
carried ls (returned s) = returned (at_world s (record { inner = s.world; labels = ls }))
carried ls (panicked msg s) = panicked msg (at_world s (record { inner = s.world; labels = ls }))

abbrev pub lifted : {W : Type 0} → Handler W → Handler (Counted W)
lifted next r s = carried s.world.labels (next r (at_world s s.world.inner))

abbrev world_of : {W : Type 0} → Exit W → W
world_of (returned s) = s.world
world_of (panicked msg s) = s.world

module _ {W : Type 0} (m : Metrics W) (next : Handler W) where
  visit : Request → Counted W → Counted W
  visit r w = world_of (
      metrics_middleware (counting m) (lifted next) r
        (record { world = w; writer = blank; logs = [] }))

  pub visits : List Request → Counted W → Counted W
  visits [] w = w
  visits (r ∷ rs) w = visits rs (visit r w)

  module _ (patterns : List String)
      (routed : (r : Request) (w : W) → IsRouted patterns (m.route_pattern r w)) where
    abbrev pub AllKnown : List Labels → Type 0
    AllKnown [] = Unit
    AllKnown (l ∷ ls) = IsOneOf (with_constants patterns) l.path × AllKnown ls

    measured-AllKnown :
        (r : Request) (s : Served (Counted W)) (ls : List Labels) (outcome : Exit W)
        → AllKnown ls
        → AllKnown (world_of (measured (counting m) r s (carried ls outcome))).labels
    unfolding measured
    measured-AllKnown r s ls (panicked msg s') h = h
    measured-AllKnown r s ls (returned s') h =
        (path_label-IsOneOf patterns (m.route_pattern r s'.world) _ (routed r s'.world), h)

    visit-AllKnown : (r : Request) (w : Counted W) → AllKnown w.labels → AllKnown (visit r w).labels
    unfolding visit metrics_middleware
    visit-AllKnown r w h =
        measured-AllKnown r (record { world = w; writer = blank; logs = [] }) w.labels
          (next r (record { world = w.inner; writer = blank; logs = [] })) h

    visits_from :
        (rs : List Request) (w : Counted W) → AllKnown w.labels → AllKnown (visits rs w).labels
    unfolding visits
    visits_from [] w h = h
    visits_from (r ∷ rs) w h = visits_from rs (visit r w) (visit-AllKnown r w h)

    -- Whatever paths are requested, no request is counted under a path label but the registered patterns,
    -- "not_found" and "unmatched_route".
    pub visits-AllKnown :
        (rs : List Request) (w : Counted W) → w.labels ≡ [] → AllKnown (visits rs w).labels
    visits-AllKnown rs w h = visits_from rs w (rw h tt)
