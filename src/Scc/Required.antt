-- ===== src/Scc/Required.antt =====
-- The required fields of `Parse` (internal/scc/finding.go): what is missing is exactly what is blank.
use mathlib.Core.List.{[]}
use ai_k8s.Prelude.{
  ◌≡◌, refl, ◌↔◌, inl, inr, String, true, false, List, ◌∷◌, Option, none, some, Error, All,
  is_empty, Bool-cases,
}
use ai_k8s.Scc.{Envelope, blank, missing_of, required}

abbrev pub IsGiven : String × String → Type 0
IsGiven (name, value) = blank value ≡ false

-- Nothing is missing exactly when every field has a value.
pub missing_of-eq-nil :
    (fields : List (String × String)) → (is_empty (missing_of fields) ≡ true) ↔ All IsGiven fields
unfolding missing_of
missing_of-eq-nil [] = (λ h. tt, λ h. refl)
missing_of-eq-nil ((name, value) ∷ fields) =
    let below = missing_of-eq-nil fields in
    elim (Bool-cases (blank value)) [
      | inl empty ↦ rw empty (λ h. cc h, λ h. cc (h.0))
      | inr given ↦ rw given (λ h. (refl, below.0 h), λ h. below.1 h.1)
    ]

abbrev pub IsComplete : Option Envelope × Option Error → Type 0
IsComplete (some env, none) = All IsGiven (required env.finding)
IsComplete (none, none) = ⊥
IsComplete (env, some e) = Unit {0}
