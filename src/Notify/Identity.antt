-- ===== src/Notify/Identity.antt =====
-- The identity of the Pod (internal/notify/entry.go): it is complete, or it is refused.
use ai_k8s.Prelude.{
  ◌≡◌, refl, ap, ◌∙◌, subst, ok-injective, ◌↔◌, inl, inr, String, ok, All, is_empty, Bool-cases,
  ◌==◌, Eq-string,
}
use ai_k8s.Text.{trim_space}
use ai_k8s.Text.Trim.{trim_space_idem}
use ai_k8s.Scc.{blank, missing_of}
use ai_k8s.Scc.Required.{IsGiven, missing_of-eq-nil}
use ai_k8s.Notify.{PodIdentity, monitored_resource, trimmed, pod_fields, pod_identity_from}

blank-trim_space : (s : String) → blank (trim_space s) ≡ blank s
unfolding blank
blank-trim_space s = ap (λ t. t == "") (trim_space_idem s)

trimmed-IsGiven : (name s : String) → IsGiven (name, s) → IsGiven (name, trim_space s)
trimmed-IsGiven name s h = blank-trim_space s ∙ h

-- The labels of the trimmed variables.
trimmed-labels :
    (lookup : String → String)
    → All IsGiven (pod_fields lookup)
    → All IsGiven (monitored_resource (trimmed lookup)).labels
unfolding monitored_resource
trimmed-labels lookup (project, (cluster, (location, (namespace, (pod, (container, _)))))) = (
  trimmed-IsGiven "project_id" (lookup "PROJECT_ID") project,
  (
    trimmed-IsGiven "location" (lookup "CLUSTER_LOCATION") location,
    (
      trimmed-IsGiven "cluster_name" (lookup "CLUSTER_NAME") cluster,
      (
        trimmed-IsGiven "namespace_name" (lookup "POD_NAMESPACE") namespace,
        (
          trimmed-IsGiven "pod_name" (lookup "POD_NAME") pod,
          (trimmed-IsGiven "container_name" (lookup "CONTAINER_NAME") container, tt),
        ),
      ),
    ),
  ),
)

-- `PodIdentityFrom` succeeds exactly when no variable is blank, and then no label of the resource is
-- blank.
pub pod_identity_from_iff :
    (lookup : String → String)
    → ((p : PodIdentity) × (pod_identity_from lookup ≡ ok p)
        × All IsGiven (monitored_resource p).labels)
      ↔ All IsGiven (pod_fields lookup)
unfolding pod_identity_from
pod_identity_from_iff lookup =
    let given = missing_of-eq-nil (pod_fields lookup) in
    (
      λ (p, made, _). elim (Bool-cases (is_empty (missing_of (pod_fields lookup)))) [
        | inr short ↦ cc (rw short at made)
        | inl complete ↦ given.0 complete
      ],
      λ h. (trimmed lookup, rw (given.1 h) refl, trimmed-labels lookup h),
    )

-- The identity that `PodIdentityFrom` returns labels the resource without a blank.
pub pod_identity_from-labels :
    (lookup : String → String) (p : PodIdentity)
    → pod_identity_from lookup ≡ ok p
    → All IsGiven (monitored_resource p).labels
unfolding pod_identity_from
pod_identity_from-labels lookup p made =
    elim (Bool-cases (is_empty (missing_of (pod_fields lookup)))) [
      | inr short ↦ cc (rw short at made)
      | inl complete ↦
          subst (λ i. All IsGiven (monitored_resource i).labels)
            (ok-injective (rw complete at made))
            (trimmed-labels lookup ((missing_of-eq-nil (pod_fields lookup)).0 complete))
    ]
