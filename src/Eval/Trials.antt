-- ===== src/Eval/Trials.antt =====
-- cmd/triage-eval/main.go: what an evaluation returns for its cases, whatever the model replies.
use mathlib.Core.List.{[]}
use ai_k8s.Prelude.{
  ◌≡◌, ◌≢◌, refl, ap, ◌∙◌, subst, inl, inr, ℕ, zero, suc, String, Option, none, some, List, ◌∷◌,
  length, ok, err, Error, Result, Bool-cases, All, Eq-string,
}
use ai_k8s.Platform.{Platform}
use ai_k8s.Scc.{Envelope, parse, blank}
use ai_k8s.Corpus.Index.{Index, resolve}
use ai_k8s.Verdict.Record.{
  Value, accepted, contradicts_decision, new, insufficient_evidence, other, value_text,
}
use ai_k8s.Verdict.Valid.{HasDigest, HasEvidence, validate_iff}
use ai_k8s.Verdict.Parsed.{HasDigests, parse-HasDigests}
use ai_k8s.Model.Settle.{Settler}
use ai_k8s.Worker.Decide.{Decision, decide}
use ai_k8s.Worker.Decisions.{decide-accepted_iff, validate-decide}
use ai_k8s.Eval.Judge.{Run, misses_required, judge}
use ai_k8s.Eval.Totals.{CaseResult}
use ai_k8s.Eval.Cases.{BuiltCase}
use ai_k8s.Eval.Trial.{
  no_provenance, State, run_of, after_decision, decide_parsed, decide_one, repeat_case, decide_all,
}

-- A verdict that validates is read as accepted only where it is.
accepted_text :
    (v : Value) (valid : (s : String) → v ≢ other s) → value_text v ≡ "accepted" → v ≡ accepted
accepted_text accepted valid h = refl
accepted_text contradicts_decision valid h = cc h
accepted_text new valid h = cc h
accepted_text insufficient_evidence valid h = cc h
accepted_text (other s) valid h = absurd (valid s refl)

module _ (P : Platform) (idx : Index) (model : Option (Settler P)) (elapsed_ms : ℕ → ℕ) where
  abbrev parsed_of : P.Bytes → Option Envelope × Option Error
  parsed_of body = parse P.unmarshal_envelope P.canonicalize P.sum_of body

  -- The corpus prices the finding of a body that parsed.
  pub record IsPriced (body : P.Bytes) : Type 0 where
    pub env : Envelope
    pub parsed : parse P.unmarshal_envelope P.canonicalize P.sum_of body ≡ (some env, none)
    pub priced : resolve idx env.finding.category env.finding.resource_name ≢ []

  decision-accepted :
      (env : Envelope) (e : Option Error) (state : State P idx model elapsed_ms) (d : Decision)
      → HasDigest env
      → (decide P idx model env e no_provenance state.0 state.1).0 ≡ ok d
      → value_text d.verdict_record.verdict ≡ "accepted"
      → (e ≡ none) × (resolve idx env.finding.category env.finding.resource_name ≢ [])
  decision-accepted env e state d digest h said =
      let valid = validate-decide P idx env digest model e no_provenance state.0 state.1 d h in
      let proper = ((validate_iff d.verdict_record).0 valid).1 in
      (decide-accepted_iff P idx env digest model e no_provenance state.0 state.1 d h).0 (
        accepted_text d.verdict_record.verdict
          (λ s same. subst (λ v. HasEvidence v d.verdict_record) same proper) said)

  after_decision-accepted :
      (env : Envelope) (e : Option Error) (latency : ℕ) (state : State P idx model elapsed_ms)
      → HasDigest env
      → (after_decision P idx model elapsed_ms latency
          (decide P idx model env e no_provenance state.0 state.1)).0.verdict
        ≡ "accepted"
      → (e ≡ none) × (resolve idx env.finding.category env.finding.resource_name ≢ [])
  unfolding after_decision run_of
  after_decision-accepted env e latency state digest said =
      by_result (decide P idx model env e no_provenance state.0 state.1) refl
    where
      by_result :
          (r : Result Decision × State P idx model elapsed_ms)
          → decide P idx model env e no_provenance state.0 state.1 ≡ r
          → (e ≡ none) × (resolve idx env.finding.category env.finding.resource_name ≢ [])
      by_result (ok d, state') same =
          decision-accepted env e state d digest (ap (λ q. q.0) same) (rw same at said)
      by_result (err why, state') same = cc (rw same at said)

  decide_parsed-accepted :
      (body : P.Bytes) (parsed : Option Envelope × Option Error)
      (state : State P idx model elapsed_ms)
      → parsed_of body ≡ parsed
      → HasDigests parsed
      → (decide_parsed P idx model elapsed_ms parsed state).0.verdict ≡ "accepted"
      → IsPriced body
  unfolding decide_parsed
  decide_parsed-accepted body (none, e) state same digest said = cc said
  decide_parsed-accepted body (some env, e) (m, st) same digest said =
      elim (Bool-cases (blank env.finding.canonical_name)) [
        | inl unnamed ↦ cc (rw (decide_parsed, unnamed) at said)
        | inr named ↦
            let (whole, priced) =
              after_decision-accepted env e (elapsed_ms (length m.calls)) (m, st) digest
                (rw (decide_parsed, named) at said) in
            record {
              env = env;
              parsed = same ∙ ap (λ (o : Option Error). (some env, o)) whole;
              priced = priced;
            }
      ]

  -- A run of an evaluation that says `accepted` is of a body that parsed, on a finding that the corpus
  -- resolves, whatever the model replies.
  pub decide_one-IsPriced :
      (body : P.Bytes) (state : State P idx model elapsed_ms)
      → (decide_one P idx model elapsed_ms body state).0.verdict ≡ "accepted"
      → IsPriced body
  unfolding decide_one
  decide_one-IsPriced body state said =
      decide_parsed-accepted body (parsed_of body) state refl
        (parse-HasDigests P.unmarshal_envelope P.canonicalize P.sum_of body) said

  -- A run of a case: judged against it, and accepted only by the rules.
  pub record IsTrial (c : BuiltCase P.Bytes) (r : Run P.Float) : Type 0 where
    pub judged : r.judgement ≡ judge c.written r
    pub priced : r.verdict ≡ "accepted" → IsPriced c.body

  -- The results of the cases, in their order: each asked as often as it is to be.
  abbrev pub AreTrials : ℕ → List (BuiltCase P.Bytes) → List (CaseResult P.Float) → Type 0
  AreTrials repeats [] [] = Unit
  AreTrials repeats [] (cr ∷ crs) = ⊥
  AreTrials repeats (c ∷ cs) [] = ⊥
  AreTrials repeats (c ∷ cs) (cr ∷ crs) =
      ((cr.name ≡ c.written.name)
        × (cr.kind ≡ c.written.kind)
        × (length cr.runs ≡ repeats)
        × All (IsTrial c) cr.runs)
      × AreTrials repeats cs crs

  repeat_case-Trials :
      (n : ℕ) (c : BuiltCase P.Bytes) (state : State P idx model elapsed_ms)
      → (length (repeat_case P idx model elapsed_ms n c state).0 ≡ n)
        × All (IsTrial c) (repeat_case P idx model elapsed_ms n c state).0
  unfolding repeat_case judge misses_required
  repeat_case-Trials zero c state = (refl, tt)
  repeat_case-Trials (suc n) c state =
      let next = (decide_one P idx model elapsed_ms c.body state).1 in
      let (many, trials) = repeat_case-Trials n c next in
      (ap suc many, (record { judged = refl; priced = decide_one-IsPriced c.body state }, trials))

  -- `decideAll` returns, for each case in its order, as many runs as it was to repeat it, each judged
  -- against its case, and none of them `accepted` unless the corpus resolves the case's finding.
  pub decide_all-AreTrials :
      (repeats : ℕ) (cs : List (BuiltCase P.Bytes)) (state : State P idx model elapsed_ms)
      → AreTrials repeats cs (decide_all P idx model elapsed_ms repeats cs state).0
  unfolding decide_all
  decide_all-AreTrials repeats [] state = tt
  decide_all-AreTrials repeats (c ∷ cs) state =
      let (many, trials) = repeat_case-Trials repeats c state in
      (
        (refl, refl, many, trials),
        decide_all-AreTrials repeats cs (repeat_case P idx model elapsed_ms repeats c state).1,
      )
