-- ===== src/Database/Postgres/Queries.antt =====
-- The spans of queries.
use helix_fnd.Prelude.{
  ℕ, ◌≡◌, refl, ◌⊎◌, inl, inr, true, false, String, List, [], ◌∷◌, ◌++◌, Bool-cases,
}
use helix_fnd.Tracing.{
  TraceCall, starts, records_error, sets_error_status, sets_attribute, ends, Traced, start_span,
  Spans,
}
use helix_fnd.Tracing.Balance.{joined}
use helix_fnd.Database.Postgres.{
  QueryResult, query_failed, command_tag, result_calls, trace_query_start, trace_query_end,
  traced_query,
}

-- What OpenTelemetry documents of contexts: a span that is put into one is found there.
pub record IsNesting {Ctx : Type 0} (spans : Spans Ctx) : Type 0 where
  pub found : (ctx : Ctx) (id : ℕ) → spans.span_of (spans.with_span ctx id) ≡ id

-- What the span of a query is to be told of its outcome.
abbrev pub told : ℕ → QueryResult → List TraceCall
told id (query_failed e) = records_error id e ∷ sets_error_status id e ∷ []
told id (command_tag tag) = sets_attribute id "db.command_tag" tag ∷ []

abbrev pub query_span : ℕ → String → TraceCall
query_span id sql = starts id "db.query" (("db.system", "postgresql") ∷ ("db.statement", sql) ∷ [])

result_calls-told : (id : ℕ) (result : QueryResult) → result_calls id result ≡ told id result
result_calls-told id (query_failed e) = refl
result_calls-told id (command_tag tag) = refl

-- A query has the effect and the result that it has without the tracer. In a context without a recording
-- span nothing is traced. In one with a recording span a span is started with the statement, and, if it
-- records, then told of the outcome, the error or the command tag, and ended.
pub traced_query-IsSpan :
    {W Ctx : Type 0} (spans : Spans Ctx) (lib : IsNesting spans) (query : W → W × QueryResult)
    (ctx : Ctx) (sql : String) (t : Traced W)
    → let (t', result) = traced_query spans query ctx sql t in
      (t'.world ≡ (query t.world).0)
      × (result ≡ (query t.world).1)
      × (((spans.is_recording ctx ≡ false) × (t'.calls ≡ t.calls))
          ⊎ (((spans.is_recording ctx ≡ true)
                × (spans.is_recording (spans.with_span ctx t.next_span) ≡ false)
                × (t'.calls ≡ t.calls ++ (query_span t.next_span sql ∷ [])))
              ⊎ ((spans.is_recording ctx ≡ true)
                  × (spans.is_recording (spans.with_span ctx t.next_span) ≡ true)
                  × (t'.calls
                      ≡ t.calls
                        ++ (query_span t.next_span sql
                            ∷ (told t.next_span (query t.world).1 ++ (ends t.next_span ∷ [])))))))
unfolding traced_query trace_query_start trace_query_end start_span
traced_query-IsSpan spans lib query ctx sql t = elim (Bool-cases (spans.is_recording ctx)) [
  | inl on ↦
      let id = t.next_span in
      elim (Bool-cases (spans.is_recording (spans.with_span ctx id))) [
        | inl sampled ↦
            rw (on, sampled, lib.found ctx id, result_calls-told id (query t.world).1)
              (
                refl,
                refl,
                inr (
                    inr (
                      refl,
                      refl,
                      joined t.calls (query_span id sql) (ends id) (told id (query t.world).1),
                    )),
              )
        | inr dropped ↦ rw (on, dropped) (refl, refl, inr (inl (refl, refl, refl)))
      ]
  | inr off ↦ rw (off, off) (refl, refl, inl (refl, refl))
]
