-- ===== src/Verdict/Classify.antt =====
-- internal/verdict/classify.go: the verdicts that need no model.
use mathlib.Core.List.{[], map}
use ai_k8s.Prelude.{◌<>◌, String, List, ◌∷◌, if◌then◌else◌, length, ◌==◌, Eq-string}
use ai_k8s.Text.{trim_space}
use ai_k8s.Text.Format.{decimal}
use ai_k8s.Scc.{Finding, Envelope, severity_unspecified}
use ai_k8s.Corpus.Index.{Entry, Index, resolve}
use ai_k8s.Verdict.Record.{
  accepted, new, insufficient_evidence, other, matched, unmatched, unset, schema_version,
  settled_by_rules, Provenance, VerdictRecord, citation_of,
}

abbrev pub unparseable_category : String
unparseable_category = "UNPARSEABLE_FINDING"

abbrev pub or_default : String → String → String
or_default s default = if s == "" then default else s

-- `baseRecord`, which `Base` returns too.
unfoldable pub base_record : Envelope → Provenance → VerdictRecord
base_record env prov =
    let f = env.finding in
    record {
      schema = schema_version;
      verdict = other "";
      finding = record {
        canonical_name = f.canonical_name;
        name = f.name;
        category = or_default (trim_space f.category) unparseable_category;
        resource_name = f.resource_name;
        severity = or_default (trim_space f.severity) severity_unspecified;
        state = f.state;
        event_time = f.event_time;
        class = f.finding_class;
        digest = or_default env.digest "sha256:unavailable";
      };
      corpus_match = unset;
      citations = [];
      reasoning = "";
      missing_evidence = [];
      recommended_action = "";
      confidence = "";
      settled_by = settled_by_rules;
      tool_calls = [];
      provenance = prov;
    }

abbrev classified_new : Finding → VerdictRecord → VerdictRecord
classified_new f r = record r {
  verdict = new;
  corpus_match = unmatched;
  reasoning =
      "No corpus entry pairs category "
      <> (f.category <> " with this resource, so nothing here prices it.");
  recommended_action =
      "Decide about this finding and record the decision, then add the pairing to mapping.yaml.";
}

abbrev classified_accepted : Finding → VerdictRecord → List Entry → VerdictRecord
classified_accepted f r resolved = record r {
  verdict = accepted;
  corpus_match = matched;
  citations = map citation_of resolved;
  reasoning =
      "Resolution matched "
      <> (decimal (length resolved)
          <> (" corpus entries for category " <> (f.category <> " on this resource.")));
  recommended_action =
      "None. The finding names something this repository already decided about and priced.";
}

-- `len(resolved) == 0` and the two ends of `Classify`.
unfoldable pub classified : Finding → VerdictRecord → List Entry → VerdictRecord
classified f r [] = classified_new f r
classified f r (e ∷ es) = classified_accepted f r (e ∷ es)

-- `Classify`
unfoldable pub classify : Envelope → Index → Provenance → VerdictRecord
unfolding classified
classify env idx prov =
    classified env.finding (base_record env prov)
      (resolve idx env.finding.category env.finding.resource_name)

-- `Insufficient`
unfoldable pub insufficient : Envelope → List String → Provenance → VerdictRecord
insufficient env missing prov = record (base_record env prov) {
  verdict = insufficient_evidence;
  corpus_match = unmatched;
  missing_evidence = missing;
  reasoning = "The worker refused to rule. What is missing is listed rather than guessed at.";
  recommended_action = "Read the finding by hand, then either fix the worker or extend the corpus.";
}
