-- ===== src/Audit/Async/Shutdown.antt =====
-- `Close`: the worker writes what is buffered, and then ends.
use mathlib.Core.List.{append-nil, append_assoc}
use helix_fnd.Prelude.{◌≡◌, ◌∙◌, refl, sym, ap, Bool, true, List, [], ◌∷◌, ◌++◌, arith, length}
use helix_fnd.Audit.Event.{Event}
use helix_fnd.Audit.Async.{AsyncLogger, work, close, is_drained}

module _ {V : Type 0} where
  -- The worker's next rounds, with the success of each `Encode`.
  abbrev pub rounds : List Bool → AsyncLogger V → AsyncLogger V
  rounds [] l = l
  rounds (written ∷ rest) l = rounds rest (work written l)

  -- Each event with the success of its `Encode`.
  abbrev pub paired : List (Event V) → List Bool → List (Event V × Bool)
  paired (e ∷ es) (b ∷ bs) = (e, b) ∷ paired es bs
  paired es bs = []

  rounds_from :
      (es : List (Event V)) (bs : List Bool) (l : AsyncLogger V)
      → l.events ≡ es
      → length es ≡ length bs
      → l.is_closed ≡ true
      → (is_drained (rounds bs l) ≡ true) × ((rounds bs l).encoded ≡ l.encoded ++ paired es bs)
  unfolding work
  rounds_from [] [] l h n c = (ground arith, sym (append-nil l.encoded))
  rounds_from [] (b ∷ bs) l h n c = absurd (omega arith)
  rounds_from (e ∷ es) [] l h n c = absurd (omega arith)
  rounds_from (e ∷ es) (b ∷ bs) l h n c =
      let taken : (work b l).events ≡ es = ground arith in
      let written : (work b l).encoded ≡ l.encoded ++ ((e, b) ∷ []) = ground arith in
      let still : (work b l).is_closed ≡ true = ground arith in
      let (drained, all) = rounds_from es bs (work b l) taken (omega arith) still in
      (
        drained,
        all
            ∙ ap (λ p. p ++ paired es bs) written
            ∙ append_assoc l.encoded ((e, b) ∷ []) (paired es bs),
      )

  -- After `Close`, as many rounds of the worker as events are buffered end it: `Close` returns, and
  -- every buffered event was handed to the encoder, in order.
  pub close_drains :
      (l : AsyncLogger V) (bs : List Bool)
      → length l.events ≡ length bs
      → (is_drained (rounds bs (close l)) ≡ true)
        × ((rounds bs (close l)).encoded ≡ l.encoded ++ paired l.events bs)
  unfolding close
  close_drains l bs n = rounds_from l.events bs (close l) refl n refl
