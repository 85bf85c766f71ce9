-- ===== src/Verdict/Valid.antt =====
-- The verdict contract: what validates, and that the rules' verdicts always do.
use mathlib.Core.List.{[]}
use ai_k8s.Prelude.{
  ◌≡◌, refl, ◌≢◌, ◌↔◌, ◌⊎◌, inl, inr, String, List, ◌∷◌, true, false, none, arith, is_empty, ◌++◌,
  ◌&&◌, ◌==◌, Eq-string, eq_iff, Bool-cases, is_empty,
}
use ai_k8s.Text.{trim_space}
use ai_k8s.Text.Trim.{trim_space_idem}
use ai_k8s.Scc.{Envelope, blank}
use ai_k8s.Verdict.Record.{
  Value, accepted, contradicts_decision, new, insufficient_evidence, other, matched, unmatched,
  settled_by_model, VerdictRecord, validate, verdict_problems, common_problems, Provenance,
}
use ai_k8s.Verdict.Classify.{base_record, or_default}

-- The contract as the README states it: the labels are there, and the verdict has its evidence.
pub record IsLabelled (r : VerdictRecord) : Type 0 where
  pub schema : blank r.schema ≡ false
  pub settled_by : blank r.settled_by ≡ false
  pub digest : blank r.finding.digest ≡ false
  pub category : blank r.finding.category ≡ false
  pub severity : blank r.finding.severity ≡ false

abbrev pub HasEvidence : Value → VerdictRecord → Type 0
HasEvidence accepted r =
    (r.citations ≢ []) × (r.corpus_match ≡ matched) × (r.settled_by ≢ settled_by_model)
HasEvidence contradicts_decision r = r.citations ≢ []
HasEvidence new r = (r.corpus_match ≡ unmatched) × (r.citations ≡ [])
HasEvidence insufficient_evidence r = r.missing_evidence ≢ []
HasEvidence (other s) r = ⊥

common_problems-eq-nil : (r : VerdictRecord) → (is_empty (common_problems r) ≡ true) ↔ IsLabelled r
unfolding common_problems
common_problems-eq-nil r = (λ h. ground arith, λ h. ground arith)

verdict_problems-eq-nil :
    (v : Value) (r : VerdictRecord) → (is_empty (verdict_problems v r) ≡ true) ↔ HasEvidence v r
unfolding verdict_problems
verdict_problems-eq-nil accepted r = grind (arith, eq_iff r.settled_by settled_by_model)
verdict_problems-eq-nil contradicts_decision r = grind arith
verdict_problems-eq-nil new r = grind arith
verdict_problems-eq-nil insufficient_evidence r = grind arith
verdict_problems-eq-nil (other s) r = grind arith

is_empty-append {ℓ} :
    {A : Type ℓ} (xs ys : List A) → is_empty (xs ++ ys) ≡ (is_empty xs && is_empty ys)
is_empty-append [] ys = refl
is_empty-append (x ∷ xs) ys = refl

validate-eq-none_iff :
    (r : VerdictRecord)
    → (validate r ≡ none)
      ↔ ((is_empty (common_problems r) ≡ true) × (is_empty (verdict_problems r.verdict r) ≡ true))
unfolding validate
validate-eq-none_iff r = rw is_empty-append (ground arith)

pub validate_iff :
    (r : VerdictRecord) → (validate r ≡ none) ↔ (IsLabelled r × HasEvidence r.verdict r)
validate_iff r =
    let whole = validate-eq-none_iff r in
    let common = common_problems-eq-nil r in
    let own = verdict_problems-eq-nil r.verdict r in
    (λ h. (common.0 (whole.0 h).0, own.0 (whole.0 h).1), λ h. whole.1 (common.1 h.0, own.1 h.1))

blank-or_default :
    (s default : String) → blank default ≡ false → blank (or_default (trim_space s) default) ≡ false
unfolding blank
blank-or_default s default h = elim (Bool-cases (trim_space s == "")) [
  | inl empty ↦ rw empty h
  | inr kept ↦ rw (kept, trim_space_idem s) kept
]

-- What the labels of a base record need of the digest: that it is missing whole, or not blank.
abbrev pub HasDigest : Envelope → Type 0
HasDigest env = (env.digest ≡ "") ⊎ (blank env.digest ≡ false)

digest-not-blank :
    (env : Envelope) → HasDigest env → blank (or_default env.digest "sha256:unavailable") ≡ false
unfolding blank trim_space
digest-not-blank env (inl missing) = rw missing
digest-not-blank env (inr kept) = elim (Bool-cases (env.digest == "")) [
  | inl empty ↦ rw empty
  | inr full ↦ rw full kept
]

pub base_record-IsLabelled :
    (env : Envelope) (prov : Provenance) → HasDigest env → IsLabelled (base_record env prov)
unfolding base_record blank trim_space
base_record-IsLabelled env prov h = record {
  schema = refl;
  settled_by = refl;
  digest = digest-not-blank env h;
  category = blank-or_default env.finding.category _ refl;
  severity = blank-or_default env.finding.severity _ refl;
}
