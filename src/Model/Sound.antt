-- ===== src/Model/Sound.antt =====
-- What holds of every outcome of the model's half, whatever the model replied.
use ai_k8s.Prelude.{
  ◌==◌, ltb, ◌≡◌, refl, ◌≢◌, inl, inr, String, Bool, true, false, none, All, Bool-cases,
  Option-cases, Result-cases, is_empty, Eq-string,
}
use ai_k8s.Platform.{Platform, Answer}
use ai_k8s.Scc.{Envelope, blank}
use ai_k8s.Corpus.Index.{Index}
use ai_k8s.Verdict.Record.{
  Value, accepted, contradicts_decision, new, insufficient_evidence, other, Provenance,
  VerdictRecord, validate, resolve_citations,
}
use ai_k8s.Verdict.Classify.{insufficient}
use ai_k8s.Verdict.Valid.{HasDigest, IsLabelled, validate_iff}
use ai_k8s.Verdict.Rules.{insufficient-IsLabelled}
use ai_k8s.Verdict.Citations.{FromCorpus, resolve_citations-FromCorpus, resolve_citations-verdict}
use ai_k8s.Model.Prompt.{Reply}
use ai_k8s.Model.Settle.{
  Refusal, rejected_output, rejected_citation, rejected_unanchored, rejected_acceptance,
  refused_budget, Outcome, refuse, Settler, checked, contradiction, judge_answer, judge_text,
  judge_reply, stamp,
}
use ai_k8s.Model.Resources.{anchored}

-- The outcome's record validates, is never `accepted`, and is a contradiction only on citations
-- that all come from the corpus, one of them anchored to a resource of the finding.
pub record IsSound (idx : Index) (env : Envelope) (o : Outcome) : Type 0 where
  pub valid : validate o.verdict_record ≡ none
  pub quiet : o.verdict_record.verdict ≢ accepted
  pub grounded :
      o.verdict_record.verdict ≡ contradicts_decision
      → All (FromCorpus idx) o.verdict_record.citations
        × (anchored o.verdict_record.citations idx env.finding ≡ true)

module _ (idx : Index) (env : Envelope) (digest : HasDigest env) where
  refused-IsLabelled :
      (prov : Provenance) (why : Refusal) (called : Bool) (detail : String)
      → IsLabelled (refuse env prov why called detail).verdict_record
  unfolding refuse blank
  refused-IsLabelled prov why true detail =
      let l = insufficient-IsLabelled env prov digest _ in
      record {
        schema = l.schema;
        settled_by = refl;
        digest = l.digest;
        category = l.category;
        severity = l.severity;
      }
  refused-IsLabelled prov why false detail = insufficient-IsLabelled env prov digest _

  pub refuse-IsSound :
      (prov : Provenance) (why : Refusal) (called : Bool) (detail : String)
      → IsSound idx env (refuse env prov why called detail)
  unfolding refuse insufficient
  refuse-IsSound prov why true detail = record {
    valid = (validate_iff _).1 (refused-IsLabelled prov why true detail, λ h. cc h);
    quiet = λ h. cc h;
    grounded = λ h. cc h;
  }
  refuse-IsSound prov why false detail = record {
    valid = (validate_iff _).1 (refused-IsLabelled prov why false detail, λ h. cc h);
    quiet = λ h. cc h;
    grounded = λ h. cc h;
  }

  checked-IsSound :
      (prov : Provenance) (r : VerdictRecord)
      → r.verdict ≢ accepted
      → (r.verdict ≡ contradicts_decision
          → All (FromCorpus idx) r.citations × (anchored r.citations idx env.finding ≡ true))
      → IsSound idx env (checked env prov r)
  unfolding checked
  checked-IsSound prov r h g = elim (Option-cases (validate r)) [
    | inl passes ↦ rw (passes, checked) (record { valid = passes; quiet = h; grounded = g })
    | inr (why, fails) ↦ rw (fails, checked) (refuse-IsSound prov rejected_output true _)
  ]

  contradiction-IsSound :
      (prov : Provenance) (r : VerdictRecord)
      → (resolve_citations idx r).0.verdict ≢ accepted
      → IsSound idx env (contradiction idx env prov r)
  unfolding contradiction
  contradiction-IsSound prov r h = elim (Option-cases (resolve_citations idx r).1) [
    | inr (why, bad) ↦ rw (bad, contradiction) (refuse-IsSound prov rejected_citation true _)
    | inl fits ↦
        elim (Bool-cases (anchored (resolve_citations idx r).0.citations idx env.finding)) [
          | inl lands ↦
              rw (fits, lands, contradiction)
                (checked-IsSound prov _ h (λ _. (resolve_citations-FromCorpus idx r fits, lands)))
          | inr floats ↦
              rw (fits, floats, contradiction) (refuse-IsSound prov rejected_unanchored true _)
        ]
  ]

  judge_answer-IsSound :
      (prov : Provenance) (a : Answer) (v : Value) → IsSound idx env (judge_answer idx env prov a v)
  unfolding judge_answer
  judge_answer-IsSound prov a new = elim (Bool-cases (is_empty a.citations)) [
    | inl none_cited ↦ rw none_cited (checked-IsSound prov _ (λ h. cc h) (λ h. cc h))
    | inr some_cited ↦ rw some_cited (refuse-IsSound prov rejected_output true _)
  ]
  judge_answer-IsSound prov a contradicts_decision =
      contradiction-IsSound prov _ (λ h. cc (resolve_citations-verdict idx _, h))
  judge_answer-IsSound prov a insufficient_evidence = checked-IsSound prov _ (λ h. cc h) (λ h. cc h)
  judge_answer-IsSound prov a accepted = refuse-IsSound prov rejected_acceptance true _
  judge_answer-IsSound prov a (other v) = refuse-IsSound prov rejected_output true _

module _ (P : Platform) (s : Settler P) (env : Envelope) (digest : HasDigest env) where
  judge_text-IsSound :
      (prov : Provenance) (text : String) → IsSound s.index env (judge_text P s.index env prov text)
  unfolding judge_text
  judge_text-IsSound prov text = elim (Result-cases (P.decode_answer text)) [
    | inr (e, bad) ↦
        rw (bad, judge_text) (refuse-IsSound s.index env digest prov rejected_output true _)
    | inl (a, good) ↦ rw (good, judge_text) (judge_answer-IsSound s.index env digest prov a _)
  ]

  pub judge_reply-IsSound :
      (prov : Provenance) (reply : Reply) → IsSound s.index env (judge_reply P s env prov reply)
  unfolding judge_reply
  judge_reply-IsSound prov reply =
      let refused = refuse-IsSound s.index env digest (stamp P s prov reply) in
      elim (Bool-cases (ltb s.max_input_tokens reply.usage.input_tokens)) [
        | inl over ↦ rw over (refused refused_budget true _)
        | inr within ↦ elim (Bool-cases (ltb 0 reply.tool_calls)) [
          | inl tools ↦ rw (within, tools) (refused rejected_output true _)
          | inr plain ↦ elim (Bool-cases (reply.finish_reason == "STOP")) [
            | inr cut ↦ rw (within, plain, cut) (refused rejected_output true _)
            | inl whole ↦ rw (within, plain, whole) (judge_text-IsSound _ reply.text)
          ]
        ]
      ]
