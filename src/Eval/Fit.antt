-- ===== src/Eval/Fit.antt =====
-- internal/eval/case.go: what `Set.Validate` asks of a set.
use mathlib.Core.List.{[], Memᴰ}
use ai_k8s.Prelude.{
  ◌≡◌, ◌≢◌, refl, ◌↔◌, ◌⊎◌, inl, inr, String, Bool, true, false, not, ◌&&◌, ◌||◌, none, List, ◌∷◌,
  ◌++◌, is_empty, is_empty-append_iff, problem_if, All, Bool-cases, Option-cases, ◌==◌, Eq-string,
  eq_iff, arith,
}
use ai_k8s.Scc.{Fields, end, blank}
use ai_k8s.Corpus.Index.{Index, lookup_entry}
use ai_k8s.Corpus.Checked.{Resolves}
use ai_k8s.Eval.Judge.{Case, contains_text}
use ai_k8s.Eval.Score.{contains_text_iff}
use ai_k8s.Eval.Cases.{
  CaseSet, kinds, origins, closed_set, is_end, outside_problems, support_problems, case_problems,
  set_problems, written_cases, validate_set,
}

-- A case that the set may hold, behind cases with the names `seen`.
pub record IsFit (idx : Index) (seen : List String) (c : Case) : Type 0 where
  pub named : blank c.name ≡ false
  pub fresh : contains_text seen c.name ≡ false
  pub kind : Memᴰ c.kind kinds
  pub origin : Memᴰ c.origin origins
  pub explained : (blank c.why ≡ false) × (blank c.evidence ≡ false)
  pub unchanged : c.origin ≡ "real" → (c.set ≡ end) × (c.delete ≡ [])
  pub closed : All (λ v. closed_set v ≡ true) (c.prefer ∷ c.accept)
  pub cites : (c.prefer ≡ "accepted") ⊎ (c.prefer ≡ "contradicts_decision") → c.support ≢ []
  pub support : All (Resolves idx) c.support
  pub require : c.require ≢ "" → Memᴰ c.require c.support

-- One more list of problems, or one more check, and the ones behind it.
both_quiet :
    {Q R : Type 0} (ps qs : List String)
    → (is_empty ps ≡ true) ↔ Q
    → (is_empty qs ≡ true) ↔ R
    → (is_empty (ps ++ qs) ≡ true) ↔ (Q × R)
both_quiet ps qs q r =
    let both = is_empty-append_iff ps qs in
    (λ h. (q.0 (both.0 h).0, r.0 (both.0 h).1), λ k. both.1 (q.1 k.0, r.1 k.1))

quiet :
    {Q : Type 0} (b : Bool) (s : String) → (b ≡ false) ↔ Q → (is_empty (problem_if b s) ≡ true) ↔ Q
quiet true s q = (λ h. cc h, λ k. cc (q.1 k))
quiet false s q = (λ h. q.0 refl, λ k. refl)

outside_problems-eq-nil :
    (name : String) (vs : List String)
    → (is_empty (outside_problems name vs) ≡ true) ↔ All (λ v. closed_set v ≡ true) vs
unfolding outside_problems
outside_problems-eq-nil name [] = (λ h. tt, λ h. refl)
outside_problems-eq-nil name (v ∷ vs) =
    let below = outside_problems-eq-nil name vs in
    elim (Bool-cases (closed_set v)) [
      | inl inside ↦ rw inside (λ h. (refl, below.0 h), λ h. below.1 h.1)
      | inr outside ↦ rw outside (λ h. cc h, λ h. cc (h.0))
    ]

support_problems-eq-nil :
    (idx : Index) (name : String) (ids : List String)
    → (is_empty (support_problems idx name ids) ≡ true) ↔ All (Resolves idx) ids
unfolding support_problems
support_problems-eq-nil idx name [] = (λ h. tt, λ h. refl)
support_problems-eq-nil idx name (id ∷ ids) =
    let below = support_problems-eq-nil idx name ids in
    elim (Option-cases (lookup_entry idx id)) [
      | inl missing ↦ rw (missing, support_problems) (λ h. cc h, λ h. cc (h.0.1))
      | inr (e, found) ↦
          rw (found, support_problems) (λ h. ((e, refl), below.0 h), λ h. below.1 h.1)
    ]

contains-not : (xs : List String) (s : String) → (not (contains_text xs s) ≡ false) ↔ Memᴰ s xs
contains-not xs s =
    let own = contains_text_iff xs s in
    (λ h. own.0 (ground (arith, h)), λ m. ground (arith, own.1 m))

both_blank : (a b : Bool) → ((a || b) ≡ false) ↔ ((a ≡ false) × (b ≡ false))
both_blank a b = (λ h. ground (arith, h), λ h. ground (arith, h.0, h.1))

real_unchanged :
    (origin : String) (set : Fields) (delete : List String)
    → ((origin == "real" && (not (is_end set) || not (is_empty delete))) ≡ false)
      ↔ (origin ≡ "real" → (set ≡ end) × (delete ≡ []))
real_unchanged origin set delete = elim (Bool-cases (origin == "real")) [
  | inr other ↦ (λ h real. cc ((eq_iff origin "real").1 real, other), λ h. rw other refl)
  | inl real ↦ (
    λ h at. untouched set delete (rw real at h),
    λ h. rw real (touched set delete (h ((eq_iff origin "real").0 real))),
  )
]
  where
    untouched :
        (set : Fields) (delete : List String)
        → (not (is_end set) || not (is_empty delete)) ≡ false
        → (set ≡ end) × (delete ≡ [])
    untouched end [] h = (refl, refl)
    untouched end (d ∷ ds) h = cc h
    untouched (Fields.field k v fs) delete h = cc h

    touched :
        (set : Fields) (delete : List String)
        → (set ≡ end) × (delete ≡ [])
        → (not (is_end set) || not (is_empty delete)) ≡ false
    touched set delete h = rw (h.0, h.1) refl

cites_supported :
    (prefer : String) (support : List String)
    → (((prefer == "accepted" || prefer == "contradicts_decision") && is_empty support) ≡ false)
      ↔ ((prefer ≡ "accepted") ⊎ (prefer ≡ "contradicts_decision") → support ≢ [])
cites_supported prefer [] = (λ h k. absurd (hit h k), λ h. ground (arith, missed h))
  where
    hit :
        ((prefer == "accepted" || prefer == "contradicts_decision") && true) ≡ false
        → (prefer ≡ "accepted") ⊎ (prefer ≡ "contradicts_decision")
        → ⊥
    hit h (inl e) = ground (arith, h, (eq_iff prefer "accepted").1 e)
    hit h (inr e) = ground (arith, h, (eq_iff prefer "contradicts_decision").1 e)

    missed :
        ((prefer ≡ "accepted") ⊎ (prefer ≡ "contradicts_decision") → ◌≢◌ {A = List String} [] [])
        → (prefer == "accepted" || prefer == "contradicts_decision") ≡ false
    missed h = elim (Bool-cases (prefer == "accepted")) [
      | inl a ↦ absurd (h (inl ((eq_iff prefer "accepted").0 a)) refl)
      | inr a ↦ elim (Bool-cases (prefer == "contradicts_decision")) [
        | inl b ↦ absurd (h (inr ((eq_iff prefer "contradicts_decision").0 b)) refl)
        | inr b ↦ rw (a, b) refl
      ]
    ]
cites_supported prefer (s ∷ ss) = (λ h k e. cc e, λ h. ground arith)

required_listed :
    (require : String) (support : List String)
    → ((not (require == "") && not (contains_text support require)) ≡ false)
      ↔ (require ≢ "" → Memᴰ require support)
required_listed require support =
    let own = contains_text_iff support require in
    let none_set = eq_iff require "" in
    elim (Bool-cases (require == "")) [
      | inl unset ↦ rw unset (λ h k. absurd (k (none_set.0 unset)), λ h. refl)
      | inr set ↦ rw set (
        λ h k. own.0 (ground (arith, h)),
        λ h. ground (arith, own.1 (h (λ e. cc (none_set.1 e, set)))),
      )
    ]

case_problems-eq-nil :
    (idx : Index) (seen : List String) (c : Case)
    → blank c.name ≡ false
    → (is_empty (case_problems idx seen c) ≡ true) ↔ IsFit idx seen c
unfolding case_problems
case_problems-eq-nil idx seen c named =
    let checks = both_quiet _ _ (quiet (contains_text seen c.name) _ (λ h. h, λ h. h)) (
      both_quiet _ _ (quiet _ _ (contains-not kinds c.kind)) (
        both_quiet _ _ (quiet _ _ (contains-not origins c.origin)) (
          both_quiet _ _ (quiet _ _ (both_blank (blank c.why) (blank c.evidence))) (
            both_quiet _ _ (quiet _ _ (real_unchanged c.origin c.set c.delete)) (
              both_quiet _ _ (outside_problems-eq-nil c.name (c.prefer ∷ c.accept)) (
                both_quiet _ _ (quiet _ _ (cites_supported c.prefer c.support)) (
                  both_quiet _ _ (support_problems-eq-nil idx c.name c.support)
                    (quiet _ _ (required_listed c.require c.support))))))))) in
    (
      λ h.
          let (
            fresh,
            (kind, (origin, (explained, (unchanged, (closed, (cites, (support, require))))))),
          ) =
            checks.0 h in
          record {
            named = named;
            fresh = fresh;
            kind = kind;
            origin = origin;
            explained = explained;
            unchanged = unchanged;
            closed = closed;
            cites = cites;
            support = support;
            require = require;
          },
      λ f. checks.1 (
        f.fresh,
        (
          f.kind,
          (f.origin, (f.explained, (f.unchanged, (f.closed, (f.cites, (f.support, f.require)))))),
        ),
      ),
    )

-- Every case is fit, behind the ones before it.
abbrev pub AreFit : Index → List String → List Case → Type 0
AreFit idx seen [] = Unit
AreFit idx seen (c ∷ cs) = IsFit idx seen c × AreFit idx (c.name ∷ seen) cs

set_problems-eq-nil :
    (idx : Index) (seen : List String) (cs : List Case)
    → (is_empty (set_problems idx seen cs) ≡ true) ↔ AreFit idx seen cs
unfolding set_problems
set_problems-eq-nil idx seen [] = (λ h. tt, λ h. refl)
set_problems-eq-nil idx seen (c ∷ cs) =
    let below = set_problems-eq-nil idx (c.name ∷ seen) cs in
    let both =
      is_empty-append_iff (case_problems idx seen c) (set_problems idx (c.name ∷ seen) cs) in
    elim (Bool-cases (blank c.name)) [
      | inl unnamed ↦ rw unnamed (λ h. cc h, λ f. cc (f.0.named, unnamed))
      | inr named ↦
          let own = case_problems-eq-nil idx seen c named in
          rw named
            (λ h. (own.0 (both.0 h).0, below.0 (both.0 h).1), λ f. both.1 (own.1 f.0, below.1 f.1))
    ]

validate_set-eq-none :
    {Bytes : Type 0} (s : CaseSet Bytes) (idx : Index)
    → (validate_set s idx ≡ none) ↔ (is_empty (set_problems idx [] (written_cases s.cases)) ≡ true)
unfolding validate_set
validate_set-eq-none s idx = ground arith

-- `Set.Validate` passes a set exactly when each of its cases has a name of its own, a known kind and
-- origin, a reason and its evidence; changes nothing where it is real; names only verdicts of the closed
-- set; lists supporting entries where its preferred verdict cites, all of which resolve; and has the
-- entry that it requires among them.
pub validate_set_iff :
    {Bytes : Type 0} (s : CaseSet Bytes) (idx : Index)
    → (validate_set s idx ≡ none) ↔ AreFit idx [] (written_cases s.cases)
validate_set_iff s idx =
    let whole = validate_set-eq-none s idx in
    let each = set_problems-eq-nil idx [] (written_cases s.cases) in
    (λ h. each.0 (whole.0 h), λ f. whole.1 (each.1 f))
