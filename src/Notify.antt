-- ===== src/Notify.antt =====
-- internal/notify/entry.go: which verdicts reach the owner, and the identity that an entry needs.
pub mod Identity
use mathlib.Core.List.{[]}
use ai_k8s.Prelude.{
  ◌<>◌, String, Bool, true, false, List, ◌∷◌, if◌then◌else◌, is_empty, ◌==◌, Eq-string, Result, ok,
  err, failed,
}
use ai_k8s.Text.{trim_space, join}
use ai_k8s.Text.Format.{decimal}
use ai_k8s.Scc.{missing_of}
use ai_k8s.Verdict.Record.{Value, accepted, VerdictRecord}

-- `Notifies`
unfoldable pub notifies : Value → Bool
notifies accepted = false
notifies _ = true

pub record PodIdentity : Type 0 where
  pub project_id : String
  pub cluster_name : String
  pub location : String
  pub namespace : String
  pub pod_name : String
  pub container_name : String

pub record Resource : Type 0 where
  pub kind : String
  pub labels : List (String × String)

-- `MonitoredResource`; a Go map is an association list.
unfoldable pub monitored_resource : PodIdentity → Resource
monitored_resource p = record {
  kind = "k8s_container";
  labels =
      ("project_id", p.project_id)
      ∷ ("location", p.location)
      ∷ ("cluster_name", p.cluster_name)
      ∷ ("namespace_name", p.namespace)
      ∷ ("pod_name", p.pod_name)
      ∷ ("container_name", p.container_name)
      ∷ [];
}

-- `Labels`
unfoldable pub labels : VerdictRecord → List (String × String)
labels r =
    if r.provenance.model == ""
    then ("settled_by", r.settled_by) ∷ []
    else ("settled_by", r.settled_by)
      ∷ ("model", r.provenance.model)
      ∷ ("input_tokens", decimal r.provenance.input_tokens)
      ∷ ("output_tokens", decimal r.provenance.output_tokens)
      ∷ ("cost_estimate", r.provenance.cost_estimate)
      ∷ []

-- The variables that identify the Pod, each with what the environment holds.
abbrev pub pod_fields : (String → String) → List (String × String)
pod_fields lookup =
    ("PROJECT_ID", lookup "PROJECT_ID")
    ∷ ("CLUSTER_NAME", lookup "CLUSTER_NAME")
    ∷ ("CLUSTER_LOCATION", lookup "CLUSTER_LOCATION")
    ∷ ("POD_NAMESPACE", lookup "POD_NAMESPACE")
    ∷ ("POD_NAME", lookup "POD_NAME")
    ∷ ("CONTAINER_NAME", lookup "CONTAINER_NAME")
    ∷ []

-- The identity that the fields end up with.
abbrev pub trimmed : (String → String) → PodIdentity
trimmed lookup = record {
  project_id = trim_space (lookup "PROJECT_ID");
  cluster_name = trim_space (lookup "CLUSTER_NAME");
  location = trim_space (lookup "CLUSTER_LOCATION");
  namespace = trim_space (lookup "POD_NAMESPACE");
  pod_name = trim_space (lookup "POD_NAME");
  container_name = trim_space (lookup "CONTAINER_NAME");
}

-- `PodIdentityFrom`
unfoldable pub pod_identity_from : (String → String) → Result PodIdentity
pod_identity_from lookup =
    let missing = missing_of (pod_fields lookup) in
    if is_empty missing
    then ok (trimmed lookup)
    else err
        (failed ("the log entry needs " <> (join missing ", " <> ", which the Pod does not set")))
