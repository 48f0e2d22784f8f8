-- ===== src/Messaging/Loop/Order.antt =====
-- The order of the calls to commit in a batch, and the context that it hands on.
use mathlib.Core.List.{reverse-cons, append_assoc}
use helix_fnd.Prelude.{
  ℕ, ◌≡◌, ◌∙◌, refl, ap, sym, inl, inr, String, List, [], ◌∷◌, ◌++◌, some, arith, Option-cases,
  foldl, reverse,
}
use helix_fnd.Messaging.Env.{
  Bytes, ConsumerConfig, KafkaRecord, span_started, span_ended, after, Env, Run,
}
use helix_fnd.Messaging.Retry.{Outcome, ack, fail, panics, process_with_retry}
use helix_fnd.Messaging.Retry.Traces.{commit_calls, commit_calls-process_with_retry}
use helix_fnd.Messaging.Loop.{Progress, go_on, returned, carrier, commit, settle, one_record, batch}
use helix_fnd.Messaging.Loop.Commits.{Progress-cases}
use helix_fnd.Messaging.Loop.Headers.{HoldsHeaders, carrier-HoldsHeaders}

reverse_step :
    (rec : KafkaRecord) (recs t : List KafkaRecord)
    → reverse recs ++ (rec ∷ t) ≡ reverse (rec ∷ recs) ++ t
reverse_step rec recs t =
    rw (reverse-cons rec recs) (sym (append_assoc (reverse recs) (rec ∷ []) t))

module _ {W Ctx : Type 0} (env : Env W Ctx) (cfg : ConsumerConfig) where
  -- Going on means that the record was asked to be committed; returning, that it was not.
  abbrev Advanced : Ctx → KafkaRecord → Run W → Progress W Ctx → Type 0
  Advanced ctx rec s (go_on s' ctx') =
      (commit_calls s'.trace ≡ rec ∷ commit_calls s.trace)
      × (ctx' ≡ env.extract ctx (carrier rec.headers))
  Advanced ctx rec s (returned s' o) = commit_calls s'.trace ≡ commit_calls s.trace

  commit_calls-commit :
      (ctx : Ctx) (rec : KafkaRecord) (s : Run W)
      → commit_calls (commit env cfg ctx rec s).trace ≡ rec ∷ commit_calls s.trace
  unfolding commit
  commit_calls-commit ctx rec s = ground arith

  settle-Advanced :
      (ctx span : Ctx) (rec : KafkaRecord) (s s' : Run W) (o : Outcome)
      → commit_calls s'.trace ≡ commit_calls s.trace
      → Advanced ctx rec s (settle env cfg (env.extract ctx (carrier rec.headers)) span rec (s', o))
  unfolding settle
  settle-Advanced ctx span rec s s' ack h =
      (commit_calls-commit span rec (after s' s'.world span_ended) ∙ ap (◌∷◌ rec) h, refl)
  settle-Advanced ctx span rec s s' (fail e) h = h
  settle-Advanced ctx span rec s s' (panics msg) h = h

  one_record-Advanced :
      (fuel : ℕ) (ctx : Ctx) (rec : KafkaRecord) (s : Run W) (p : Progress W Ctx)
      → one_record env cfg fuel ctx rec s ≡ some p
      → Advanced ctx rec s p
  unfolding one_record
  one_record-Advanced fuel ctx rec s p e =
      let next = env.extract ctx (carrier rec.headers) in
      let span = env.start_span next rec in
      let begun = after s s.world (span_started rec) in
      elim (Option-cases (process_with_retry env cfg span rec fuel begun)) [
        | inl out ↦ absurd (cc (rw (out, one_record) at e))
        | inr ((s', o), r) ↦
            let settled : settle env cfg next span rec (s', o) ≡ p = ground arith in
            rw (← settled) (
              settle-Advanced ctx span rec s s' o
                (commit_calls-process_with_retry env cfg span rec fuel begun s' o r))
      ]

  -- The calls that a batch makes to commit, and the context that it hands on, in terms of the carriers.
  abbrev Carried : Ctx → List KafkaRecord → Run W → Progress W Ctx → Type 0
  Carried ctx recs s (go_on s' ctx') =
      (commit_calls s'.trace ≡ reverse recs ++ commit_calls s.trace)
      × (ctx' ≡ foldl (λ c rec. env.extract c (carrier rec.headers)) ctx recs)
  Carried ctx recs s (returned s' o) =
      (done : List KafkaRecord) × (stopped : KafkaRecord) × (rest : List KafkaRecord) × (recs
        ≡ done ++ (stopped ∷ rest))
      × (commit_calls s'.trace ≡ reverse done ++ commit_calls s.trace)

  Carried-cons :
      (ctx ctx' : Ctx) (rec : KafkaRecord) (recs : List KafkaRecord) (s s' : Run W)
      (p : Progress W Ctx)
      → Advanced ctx rec s (go_on s' ctx')
      → Carried ctx' recs s' p
      → Carried ctx (rec ∷ recs) s p
  Carried-cons ctx ctx' rec recs s s' (go_on s₂ ctx₂) (a, c) (order, last) = (
    order ∙ ap (◌++◌ (reverse recs)) a ∙ reverse_step rec recs (commit_calls s.trace),
    rw (← c) last,
  )
  Carried-cons ctx ctx' rec recs s s' (returned s₂ o) (a, c) (done, stopped, rest, split, order) = (
    rec ∷ done,
    stopped,
    rest,
    ap (◌∷◌ rec) split,
    order ∙ ap (◌++◌ (reverse done)) a ∙ reverse_step rec done (commit_calls s.trace),
  )

  batch-Carried :
      (fuel : ℕ) (ctx : Ctx) (recs : List KafkaRecord) (s : Run W) (p : Progress W Ctx)
      → batch env cfg fuel ctx recs s ≡ some p
      → Carried ctx recs s p
  unfolding batch
  batch-Carried fuel ctx [] s (go_on s' ctx') e =
      let same : (s ≡ s') × (ctx ≡ ctx') = ground arith in
      (ap (λ r. commit_calls r.trace) (sym same.0), sym same.1)
  batch-Carried fuel ctx [] s (returned s' o) e = absurd (ground arith)
  batch-Carried fuel ctx (rec ∷ recs) s p e =
      elim (Progress-cases (one_record env cfg fuel ctx rec s)) [
        | inl out ↦ absurd (ground arith)
        | inr (inl (s', ctx', r)) ↦
            Carried-cons ctx ctx' rec recs s s' p
              (one_record-Advanced fuel ctx rec s (go_on s' ctx') r)
              (batch-Carried fuel ctx' recs s' p (ground arith))
        | inr (inr (s', o, r)) ↦
            let same : returned s' o ≡ p = ground arith in
            rw (← same) ([], rec, recs, refl, one_record-Advanced fuel ctx rec s (returned s' o) r)
      ]

  -- The calls to commit: one for each record, in order, if the batch goes on; if it returns, exactly those
  -- for the records before the one that it stopped at.
  abbrev pub Ordered : Ctx → List KafkaRecord → Run W → Progress W Ctx → Type 0
  Ordered ctx recs s (go_on s' ctx') =
      (commit_calls s'.trace ≡ reverse recs ++ commit_calls s.trace)
      × ((map_of : KafkaRecord → List (String × Bytes)) × HoldsHeaders map_of
          × (ctx' ≡ foldl (λ c rec. env.extract c (map_of rec)) ctx recs))
  Ordered ctx recs s (returned s' o) =
      (done : List KafkaRecord) × (stopped : KafkaRecord) × (rest : List KafkaRecord) × (recs
        ≡ done ++ (stopped ∷ rest))
      × (commit_calls s'.trace ≡ reverse done ++ commit_calls s.trace)

  Carried-Ordered :
      (ctx : Ctx) (recs : List KafkaRecord) (s : Run W) (p : Progress W Ctx)
      → Carried ctx recs s p
      → Ordered ctx recs s p
  Carried-Ordered ctx recs s (go_on s' ctx') (order, last) =
      (order, ((λ rec. carrier rec.headers), carrier-HoldsHeaders, last))
  Carried-Ordered ctx recs s (returned s' o) h = h

  -- A batch calls CommitRecords for its records in their order, once for each. If it goes on to the next
  -- poll, it has done so for all, whether or not the calls succeeded, and the context handed on has been
  -- extracted from every record in turn, from a map with the last value of each of its headers. If it
  -- returns, it has done so for exactly the records before the one that it stopped at.
  pub batch-Ordered :
      (fuel : ℕ) (ctx : Ctx) (recs : List KafkaRecord) (s : Run W) (p : Progress W Ctx)
      → batch env cfg fuel ctx recs s ≡ some p
      → Ordered ctx recs s p
  batch-Ordered fuel ctx recs s p e =
      Carried-Ordered ctx recs s p (batch-Carried fuel ctx recs s p e)
