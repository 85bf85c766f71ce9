-- ===== src/Worker/Half.antt =====
-- Which half of `Decide` a decision came from: the rules or the model.
use mathlib.Core.List.{[]}
use ai_k8s.Prelude.{
  ◌≡◌, refl, sym, ◌∙◌, subst, ◌≢◌, ◌↔◌, ◌⊎◌, inl, inr, List, Option, none, some, Result, ok, err,
  Error, model_failed, error_text, ok-injective,
}
use ai_k8s.Platform.{Platform}
use ai_k8s.Scc.{Envelope}
use ai_k8s.Corpus.Index.{Index, Entry, resolve}
use ai_k8s.Verdict.Record.{
  Value, accepted, contradicts_decision, new, insufficient_evidence, other, Provenance, validate,
}
use ai_k8s.Verdict.Classify.{classify, insufficient}
use ai_k8s.Verdict.Valid.{HasDigest}
use ai_k8s.Verdict.Rules.{Classified, classify-Classified, validate-classify, validate-insufficient}
use ai_k8s.Ledger.Store.{Store}
use ai_k8s.Model.Settle.{Outcome, Settler, Memory}
use ai_k8s.Model.Sound.{IsSound}
use ai_k8s.Model.Settling.{settle-IsSound}
use ai_k8s.Worker.Decide.{
  Decision, rules_record, revalidated, finish, by_rules, after_settle, consult, decide_by, decide,
}

pub validate-rules_record :
    (idx : Index) (env : Envelope) (e : Option Error) (prov : Provenance)
    → HasDigest env
    → validate (rules_record idx env e prov) ≡ none
unfolding rules_record
validate-rules_record idx env none prov d = validate-classify env prov d idx
validate-rules_record idx env (some e) prov d = validate-insufficient env prov d _ (λ h. cc h)

pub finish_of_valid :
    (env : Envelope) (prov : Provenance) (o : Outcome)
    → validate o.verdict_record ≡ none
    → finish env prov o ≡ ok o
unfolding finish
finish_of_valid env prov o valid = rw (valid, revalidated)

-- The rules' verdict: accepted where something resolves, and never a contradiction.
pub rules_record-verdict :
    (idx : Index) (env : Envelope) (e : Option Error) (prov : Provenance)
    → ((rules_record idx env e prov).verdict ≡ accepted)
      ↔ ((e ≡ none) × (resolve idx env.finding.category env.finding.resource_name ≢ []))
unfolding rules_record insufficient
rules_record-verdict idx env (some e) prov = (λ h. cc h, λ h. cc (h.0))
rules_record-verdict idx env none prov = by_case (classify-Classified env idx prov).0
  where
    resolved : List Entry
    resolved = resolve idx env.finding.category env.finding.resource_name

    by_case :
        Classified (classify env idx prov) resolved
        → ((classify env idx prov).verdict ≡ accepted)
          ↔ ((◌≡◌ {A = Option Error} none none) × (resolved ≢ []))
    by_case (inl (nothing, verdict, _, _)) = (λ h. cc (verdict, h), λ h. absurd (h.1 nothing))
    by_case (inr (something, verdict, _, _)) = (λ _. (refl, something), λ _. verdict)

abbrev pub verdict_of : Decision → Value
verdict_of d = d.verdict_record.verdict

pub rules_record-ne-contradicts :
    (idx : Index) (env : Envelope) (e : Option Error) (prov : Provenance)
    → (rules_record idx env e prov).verdict ≢ contradicts_decision
unfolding rules_record insufficient
rules_record-ne-contradicts idx env (some e) prov h = cc
rules_record-ne-contradicts idx env none prov h = by_case (classify-Classified env idx prov).0
  where
    by_case :
        Classified
          (classify env idx prov)
          (resolve idx env.finding.category env.finding.resource_name)
        → ⊥
    by_case (inl (_, verdict, _, _)) = cc (verdict, h)
    by_case (inr (_, verdict, _, _)) = cc (verdict, h)

pub rules_record-new :
    (idx : Index) (env : Envelope) (e : Option Error) (prov : Provenance)
    → (rules_record idx env e prov).verdict ≡ new
    → resolve idx env.finding.category env.finding.resource_name ≡ []
unfolding rules_record insufficient
rules_record-new idx env (some e) prov h = cc
rules_record-new idx env none prov h = by_case (classify-Classified env idx prov).0
  where
    by_case :
        Classified
          (classify env idx prov)
          (resolve idx env.finding.category env.finding.resource_name)
        → resolve idx env.finding.category env.finding.resource_name ≡ []
    by_case (inl (nothing, _, _, _)) = nothing
    by_case (inr (_, verdict, _, _)) = cc (verdict, h)

pub consult_cases :
    (P : Platform) (model : Option (Settler P)) (e : Option Error) (v : Value)
    → (consult P model e v ≡ none)
      ⊎ ((s : Settler P) × (consult P model e v ≡ some s)
          × (model ≡ some s)
          × (e ≡ none)
          × (v ≡ new))
unfolding consult
consult_cases P none e v = inl refl
consult_cases P (some s) (some e) v = inl refl
consult_cases P (some s) none new = inr (s, refl, refl, refl, refl)
consult_cases P (some s) none accepted = inl refl
consult_cases P (some s) none contradicts_decision = inl refl
consult_cases P (some s) none insufficient_evidence = inl refl
consult_cases P (some s) none (other v) = inl refl

-- Where a decision came from: the rules, or the model's half, on a finding that parsed and that
-- the rules left unmatched.
pub data FromHalf (P : Platform) (idx : Index) (env : Envelope) (model : Option (Settler P))
    (e : Option Error) (prov : Provenance) (d : Decision) : Type 0 where
  rules : d ≡ by_rules (rules_record idx env e prov) → FromHalf P idx env model e prov d
  asked :
      (s : Settler P)
      → model ≡ some s
      → e ≡ none
      → (rules_record idx env e prov).verdict ≡ new
      → IsSound s.index env d
      → FromHalf P idx env model e prov d

module _ (P : Platform) (idx : Index) (env : Envelope) (digest : HasDigest env) where
  after_settle-ok :
      (prov : Provenance) (s : Settler P) (res : Result Outcome × (Memory P × Store P.Bytes))
      {d : Decision}
      → ((o : Outcome) → res.0 ≡ ok o → IsSound s.index env o)
      → (after_settle P env prov res).0 ≡ ok d
      → IsSound s.index env d
  unfolding after_settle
  after_settle-ok prov s (err e, rest) sound h = cc
  after_settle-ok prov s (ok o, rest) sound h =
      let good = sound o refl in
      subst (IsSound s.index env) (ok-injective (sym (finish_of_valid env prov o good.valid) ∙ h))
        good

  pub after_settle-err :
      (prov : Provenance) (s : Settler P) (res : Result Outcome × (Memory P × Store P.Bytes))
      {why : Error}
      → ((o : Outcome) → res.0 ≡ ok o → IsSound s.index env o)
      → (after_settle P env prov res).0 ≡ err why
      → (cause : Error) × (res.0 ≡ err cause) × (why ≡ model_failed (error_text cause))
  unfolding after_settle
  after_settle-err prov s (err e, rest) sound h = (e, refl, cc)
  after_settle-err prov s (ok o, rest) sound h =
      cc (finish_of_valid env prov o (sound o refl).valid, h)

  module _ (model : Option (Settler P)) (e : Option Error) (prov : Provenance) where
    pub rules_decision :
        finish env prov (by_rules (rules_record idx env e prov))
        ≡ ok (by_rules (rules_record idx env e prov))
    rules_decision = finish_of_valid env prov _ (validate-rules_record idx env e prov digest)

    pub decide-FromHalf :
        (m : Memory P) (st : Store P.Bytes) (d : Decision)
        → (decide P idx model env e prov m st).0 ≡ ok d
        → FromHalf P idx env model e prov d
    unfolding decide decide_by finish
    decide-FromHalf m st d h =
        elim (consult_cases P model e (rules_record idx env e prov).verdict) [
          | inl alone ↦ rules (ok-injective (sym (rw (alone, decide_by) at h) ∙ rules_decision))
          | inr (s, chosen, there, parsed, unmatched) ↦ asked s there parsed unmatched (
              after_settle-ok prov s _ (λ o. settle-IsSound P s env prov m st o digest)
                (rw (chosen, decide_by) at h))
        ]
