-- ===== src/Worker/Decisions.antt =====
-- What `Decide` returns, for every finding, corpus, model reply and failure of the bucket.
use mathlib.Core.List.{[]}
use ai_k8s.Prelude.{◌≡◌, ap, ◌≢◌, ◌↔◌, Option, none, some, All, ok, Error}
use ai_k8s.Platform.{Platform}
use ai_k8s.Scc.{Envelope}
use ai_k8s.Corpus.Index.{Index, resolve}
use ai_k8s.Verdict.Record.{accepted, contradicts_decision, Provenance, validate}
use ai_k8s.Verdict.Valid.{HasDigest}
use ai_k8s.Verdict.Citations.{FromCorpus}
use ai_k8s.Ledger.Store.{Store}
use ai_k8s.Model.Settle.{Settler, Memory}
use ai_k8s.Model.Resources.{resources_of}
use ai_k8s.Model.Anchor.{Anchors, anchored_iff}
use ai_k8s.Worker.Decide.{Decision, decide}
use ai_k8s.Worker.Half.{
  verdict_of, rules_record-ne-contradicts, rules_record-new, rules_record-verdict,
  validate-rules_record, FromHalf, rules, asked, decide-FromHalf,
}

module _ (P : Platform) (idx : Index) (env : Envelope) (digest : HasDigest env) where
  module _ (model : Option (Settler P)) (e : Option Error) (prov : Provenance) where
    -- Every verdict that `Decide` returns validates.
    pub validate-decide :
        (m : Memory P) (st : Store P.Bytes) (d : Decision)
        → (decide P idx model env e prov m st).0 ≡ ok d
        → validate d.verdict_record ≡ none
    validate-decide m st d h = valid_from d (decide-FromHalf P idx env digest model e prov m st d h)
      where
        valid_from :
            (d : Decision) → FromHalf P idx env model e prov d → validate d.verdict_record ≡ none
        valid_from d (rules same) = rw same (validate-rules_record idx env e prov digest)
        valid_from d (asked s there parsed unmatched sound) = sound.valid

    -- Acceptance comes from the reviewed mapping alone: a decision is `accepted` exactly when the
    -- body parsed and the corpus resolves the category and the resource, whatever the model says.
    pub decide-accepted_iff :
        (m : Memory P) (st : Store P.Bytes) (d : Decision)
        → (decide P idx model env e prov m st).0 ≡ ok d
        → (d.verdict_record.verdict ≡ accepted)
          ↔ ((e ≡ none) × (resolve idx env.finding.category env.finding.resource_name ≢ []))
    decide-accepted_iff m st d h =
        by_half d (decide-FromHalf P idx env digest model e prov m st d h)
      where
        by_half :
            (d : Decision)
            → FromHalf P idx env model e prov d
            → (d.verdict_record.verdict ≡ accepted)
              ↔ ((e ≡ none) × (resolve idx env.finding.category env.finding.resource_name ≢ []))
        by_half d (rules same) = rw same (rules_record-verdict idx env e prov)
        by_half d (asked s there parsed unmatched sound) = (
          λ quiet. absurd (sound.quiet quiet),
          λ held. cc ((rules_record-verdict idx env e prov).1 held, unmatched),
        )

    pub decide-contradicts :
        (m : Memory P) (st : Store P.Bytes) (d : Decision)
        → (decide P idx model env e prov m st).0 ≡ ok d
        → d.verdict_record.verdict ≡ contradicts_decision
        → (e ≡ none)
          × (resolve idx env.finding.category env.finding.resource_name ≡ [])
          × ((s : Settler P) × (model ≡ some s)
              × All (FromCorpus s.index) d.verdict_record.citations
              × Anchors d.verdict_record.citations s.index (resources_of env.finding))
    decide-contradicts m st d h c =
        by_half d c (decide-FromHalf P idx env digest model e prov m st d h)
      where
        by_half :
            (d : Decision)
            → d.verdict_record.verdict ≡ contradicts_decision
            → FromHalf P idx env model e prov d
            → (e ≡ none)
              × (resolve idx env.finding.category env.finding.resource_name ≡ [])
              × ((s : Settler P) × (model ≡ some s)
                  × All (FromCorpus s.index) d.verdict_record.citations
                  × Anchors d.verdict_record.citations s.index (resources_of env.finding))
        by_half d c (rules same) =
            absurd (rules_record-ne-contradicts idx env e prov (cc (ap verdict_of same, c)))
        by_half d c (asked s there parsed unmatched sound) = (
          parsed,
          rules_record-new idx env e prov unmatched,
          (
            s,
            there,
            (sound.grounded c).0,
            (anchored_iff d.verdict_record.citations s.index env.finding).0 (sound.grounded c).1,
          ),
        )
