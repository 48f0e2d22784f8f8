-- ===== src/Tracing/Balance.antt =====
-- Calls on a tracer in which every span that is started is told of its outcome and ended.
use mathlib.Core.List.{append_assoc}
use helix_fnd.Prelude.{ℕ, ◌≡◌, ◌∙◌, String, List, [], ◌∷◌, ◌++◌}
use helix_fnd.Tracing.{TraceCall, starts, records_error, sets_error_status, sets_attribute, ends}

-- Calls about one span that has been started.
abbrev pub IsAbout : ℕ → List TraceCall → Type 0
IsAbout id [] = Unit
IsAbout id (starts n name attrs ∷ calls) = ⊥
IsAbout id (records_error n e ∷ calls) = (n ≡ id) × IsAbout id calls
IsAbout id (sets_error_status n e ∷ calls) = (n ≡ id) × IsAbout id calls
IsAbout id (sets_attribute n k v ∷ calls) = (n ≡ id) × IsAbout id calls
IsAbout id (ends n ∷ calls) = ⊥

-- One span, from its start to its end.
abbrev pub IsSpan : ℕ → List TraceCall → Type 0
IsSpan id calls =
    (name : String) × (attrs : List (String × String)) × (inner : List TraceCall) × IsAbout id inner
    × (calls ≡ starts id name attrs ∷ (inner ++ (ends id ∷ [])))

pub joined :
    (old : List TraceCall) (first last : TraceCall) (inner : List TraceCall)
    → ((old ++ (first ∷ [])) ++ inner) ++ (last ∷ []) ≡ old ++ (first ∷ (inner ++ (last ∷ [])))
joined old first last inner =
    append_assoc (old ++ (first ∷ [])) inner (last ∷ [])
    ∙ append_assoc old (first ∷ []) (inner ++ (last ∷ []))
