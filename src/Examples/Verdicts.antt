-- ===== src/Examples/Verdicts.antt =====
-- The verdict records at concrete inputs (internal/verdict).
use mathlib.Core.List.{[]}
use ai_k8s.Prelude.{◌≡◌, String, none, ◌∷◌, refl, inr, All}
use ai_k8s.Scc.{blank}
use ai_k8s.Text.{trim_space}
use ai_k8s.Corpus.Index.{lookup, lookup_entry}
use ai_k8s.Verdict.Record.{VerdictRecord, unresolved, resolved_citations, resolve_citations}
use ai_k8s.Verdict.Classify.{classify, insufficient}
use ai_k8s.Verdict.Valid.{HasDigest}
use ai_k8s.Verdict.Citations.{FromCorpus, resolve_citations-FromCorpus}
use ai_k8s.Examples.Setting.{corpus, single_zone, public_bucket, provenance}

pub public_bucket-HasDigest : HasDigest public_bucket
unfolding blank trim_space
public_bucket-HasDigest = inr refl

abbrev priced : VerdictRecord
priced = classify single_zone corpus provenance

abbrev citing : String → VerdictRecord
citing id = record (insufficient public_bucket ("a log" ∷ []) provenance) {
  citations = record { id = id; summary = "mine"; source = "" } ∷ [];
}

citing_resolves : (resolve_citations corpus (citing "decision:one-node")).1 ≡ none
unfolding resolve_citations unresolved resolved_citations lookup_entry lookup
citing_resolves = refl

resolve_citations-FromCorpus_example :
    All (FromCorpus corpus) (resolve_citations corpus (citing "decision:one-node")).0.citations
resolve_citations-FromCorpus_example =
    resolve_citations-FromCorpus corpus (citing "decision:one-node") citing_resolves
