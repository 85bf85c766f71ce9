-- ===== src/Corpus/Kinds.antt =====
-- The kinds of the ids that the constructors of internal/corpus/id.go build, whatever the parts.
use Prim.Native.String.{String}
use text.Mathlib.TextLemmas.{append_assoc, nil-append}
use mathlib.Core.List.{[]}
use ai_k8s.Prelude.{
  ◌<>◌, ◌≡◌, refl, ap, ◌∙◌, inl, inr, ℕ, false, ◌||◌, List, ◌∷◌, ok, Bool-cases, ◌==◌, Eq-string,
}
use ai_k8s.Text.{has_char, split_from, split}
use ai_k8s.Text.Format.{decimal, atoi}
use ai_k8s.Corpus.Index.{
  Kind, checkov, threat, decision, control, checkov_id, threat_id, decision_id, control_id, EntryId,
  is_positive, parse_parts, parse_id,
}
use ai_k8s.Corpus.Ids.{split_from-colon}

-- What stands before the first colon is the first part.
split-head :
    (kind rest : String)
    → has_char b':' kind ≡ false
    → split ((kind <> ":") <> rest) b':' ≡ kind ∷ split_from b':' "" rest
unfolding split
split-head kind rest h =
    ap (λ (t : String). split_from b':' "" t) (append_assoc kind ":" rest)
    ∙ split_from-colon "" kind rest h
    ∙ ap (λ (t : String). t ∷ split_from b':' "" rest) (nil-append kind)

parse_parts-control :
    (id : EntryId) (rest : List String) (k : Kind)
    → parse_parts id ("control" ∷ rest) ≡ ok k
    → k ≡ control
unfolding parse_parts
parse_parts-control id [] k h = cc h
parse_parts-control id (name ∷ x ∷ others) k h = cc h
parse_parts-control id (name ∷ []) k h = elim (Bool-cases (name == "")) [
  | inl empty ↦ cc (rw empty at h)
  | inr named ↦ cc (rw named at h)
]

parse_parts-decision :
    (id : EntryId) (rest : List String) (k : Kind)
    → parse_parts id ("decision" ∷ rest) ≡ ok k
    → k ≡ decision
unfolding parse_parts
parse_parts-decision id [] k h = cc h
parse_parts-decision id (name ∷ x ∷ others) k h = cc h
parse_parts-decision id (name ∷ []) k h = elim (Bool-cases (name == "")) [
  | inl empty ↦ cc (rw empty at h)
  | inr named ↦ cc (rw named at h)
]

parse_parts-threat :
    (id : EntryId) (rest : List String) (k : Kind)
    → parse_parts id ("threat" ∷ rest) ≡ ok k
    → k ≡ threat
unfolding parse_parts
parse_parts-threat id [] k h = cc h
parse_parts-threat id (number ∷ x ∷ others) k h = cc h
parse_parts-threat id (number ∷ []) k h = elim (Bool-cases (is_positive (atoi number))) [
  | inl proper ↦ cc (rw proper at h)
  | inr wrong ↦ cc (rw wrong at h)
]

parse_parts-checkov :
    (id : EntryId) (rest : List String) (k : Kind)
    → parse_parts id ("checkov" ∷ rest) ≡ ok k
    → k ≡ checkov
unfolding parse_parts
parse_parts-checkov id [] k h = cc h
parse_parts-checkov id (check ∷ []) k h = cc h
parse_parts-checkov id (check ∷ address ∷ x ∷ others) k h = cc h
parse_parts-checkov id (check ∷ address ∷ []) k h =
    elim (Bool-cases (check == "" || address == "")) [
      | inl empty ↦ cc (rw empty at h)
      | inr named ↦ cc (rw named at h)
    ]

module _ (k : Kind) where
  pub parse_id-control_kind : (slug : String) → parse_id (control_id slug) ≡ ok k → k ≡ control
  unfolding parse_id control_id
  parse_id-control_kind slug h =
      parse_parts-control (control_id slug) (split_from b':' "" (slug)) k
        (rw (split-head "control" slug (unfold has_char in refl)) at h)

  pub parse_id-decision_kind : (name : String) → parse_id (decision_id name) ≡ ok k → k ≡ decision
  unfolding parse_id decision_id
  parse_id-decision_kind name h =
      parse_parts-decision (decision_id name) (split_from b':' "" (name)) k
        (rw (split-head "decision" name (unfold has_char in refl)) at h)

  pub parse_id-threat_kind : (n : ℕ) → parse_id (threat_id n) ≡ ok k → k ≡ threat
  unfolding parse_id threat_id
  parse_id-threat_kind n h =
      parse_parts-threat (threat_id n) (split_from b':' "" (decimal n)) k
        (rw (split-head "threat" (decimal n) (unfold has_char in refl)) at h)

  pub parse_id-checkov_kind :
      (check address : String) → parse_id (checkov_id check address) ≡ ok k → k ≡ checkov
  unfolding parse_id checkov_id
  parse_id-checkov_kind check address h =
      parse_parts-checkov (checkov_id check address)
        (split_from b':' "" (check <> (":" <> address))) k
        (rw (split-head "checkov" (check <> (":" <> address)) (unfold has_char in refl)) at h)
