-- ===== src/Verdict/Rules.antt =====
-- What the rules' verdicts say: `Classify` and `Insufficient` of internal/verdict/classify.go.
use mathlib.Core.List.{[], map}
use ai_k8s.Prelude.{arith, ◌≡◌, refl, ◌≢◌, ◌⊎◌, inl, inr, String, List, ◌∷◌, eq_iff, none}
use ai_k8s.Scc.{Envelope}
use ai_k8s.Corpus.Index.{Index, Entry, resolve}
use ai_k8s.Verdict.Record.{
  accepted, new, matched, unmatched, settled_by_model, settled_by_rules, citation_of, VerdictRecord,
  Provenance, validate,
}
use ai_k8s.Verdict.Classify.{base_record, classified, classify, insufficient}
use ai_k8s.Verdict.Valid.{IsLabelled, HasEvidence, HasDigest, validate_iff, base_record-IsLabelled}

-- The two verdicts of `Classify`: `new` with no citation where nothing resolves, and `accepted`
-- with the resolved entries, all of them and in order, where something does.
abbrev pub Classified : VerdictRecord → List Entry → Type 0
Classified r resolved =
    ((resolved ≡ []) × (r.verdict ≡ new) × (r.corpus_match ≡ unmatched) × (r.citations ≡ []))
    ⊎ ((resolved ≢ [])
        × (r.verdict ≡ accepted)
        × (r.corpus_match ≡ matched)
        × (r.citations ≡ map citation_of resolved))

classified-Classified :
    (env : Envelope) (prov : Provenance) (resolved : List Entry)
    → Classified (classified env.finding (base_record env prov) resolved) resolved
      × ((classified env.finding (base_record env prov) resolved).settled_by ≡ settled_by_rules)
unfolding classified base_record
classified-Classified env prov [] = (inl (refl, refl, refl, refl), refl)
classified-Classified env prov (e ∷ es) = (inr (λ h. cc h, refl, refl, refl), refl)

pub classify-Classified :
    (env : Envelope) (idx : Index) (prov : Provenance)
    → Classified
        (classify env idx prov)
        (resolve idx env.finding.category env.finding.resource_name)
      × ((classify env idx prov).settled_by ≡ settled_by_rules)
unfolding classify
classify-Classified env idx prov = classified-Classified env prov _

classified-IsLabelled :
    (env : Envelope) (prov : Provenance) (resolved : List Entry)
    → HasDigest env
    → IsLabelled (classified env.finding (base_record env prov) resolved)
unfolding classified
classified-IsLabelled env prov [] h =
    let l = base_record-IsLabelled env prov h in
    record {
      schema = l.schema;
      settled_by = l.settled_by;
      digest = l.digest;
      category = l.category;
      severity = l.severity;
    }
classified-IsLabelled env prov _ h =
    let l = base_record-IsLabelled env prov h in
    record {
      schema = l.schema;
      settled_by = l.settled_by;
      digest = l.digest;
      category = l.category;
      severity = l.severity;
    }

classified-HasEvidence :
    (env : Envelope) (prov : Provenance) (resolved : List Entry)
    → let r = classified env.finding (base_record env prov) resolved in HasEvidence r.verdict r
unfolding classified base_record
classified-HasEvidence env prov [] = (refl, refl)
classified-HasEvidence env prov (e ∷ es) =
    (λ h. cc h, refl, λ h. ground (arith, eq_iff settled_by_rules settled_by_model))

module _ (env : Envelope) (prov : Provenance) (digest : HasDigest env) where
  -- Every record of `Classify` validates.
  pub validate-classify : (idx : Index) → validate (classify env idx prov) ≡ none
  unfolding classify
  validate-classify idx =
      (validate_iff _).1
        (classified-IsLabelled env prov _ digest, classified-HasEvidence env prov _)

  pub insufficient-IsLabelled : (missing : List String) → IsLabelled (insufficient env missing prov)
  unfolding insufficient
  insufficient-IsLabelled missing =
      let l = base_record-IsLabelled env prov digest in
      record {
        schema = l.schema;
        settled_by = l.settled_by;
        digest = l.digest;
        category = l.category;
        severity = l.severity;
      }

  -- A refusal that names something missing validates.
  pub validate-insufficient :
      (missing : List String) → missing ≢ [] → validate (insufficient env missing prov) ≡ none
  unfolding insufficient
  validate-insufficient missing h = (validate_iff _).1 (insufficient-IsLabelled missing, h)
