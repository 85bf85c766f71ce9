-- ===== src/Verdict/Parsed.antt =====
-- What `Parse` (internal/scc/finding.go) returns has a digest.
use Prim.Native.String.{[], ◌∷◌}
use text.Mathlib.TextLemmas.{nil-append, cons-append, append_assoc}
use ai_k8s.Prelude.{
  ℕ, ◌<>◌, ◌≡◌, ap, ◌∙◌, inr, inl, String, false, List, Option, none, some, Result, Error,
  Bool-cases, Result-cases, ◌==◌, Eq-string, eq_iff, is_empty,
}
use ai_k8s.Text.{trim_space, trim, trim_left, trim_right, is_space, is_nil}
use ai_k8s.Text.Format.{hex}
use ai_k8s.Scc.{Envelope, blank, missing_of, required, check_envelope, digest_of, parse}
use ai_k8s.Verdict.Valid.{HasDigest}

-- A text that begins with an "s" is not blank.
begins_s : (t : String) → blank ("s" <> t) ≡ false
unfolding blank trim_space trim trim_left trim_right is_space
begins_s t =
    let whole : "s" <> t ≡ "s" ∷ t =
      cons-append _ [] t ∙ ap (λ (x : String). "s" ∷ x) (nil-append t) in
    elim (Bool-cases (is_nil (trim_right is_space t))) [
      | inl none_left ↦ rw (whole, none_left) (cons_not_nil _)
      | inr more ↦ rw (whole, more) (cons_not_nil (trim_right is_space t))
    ]
  where
    cons_not_nil : (rest : String) → (("s" ∷ rest) == "") ≡ false
    cons_not_nil rest = elim (Bool-cases (("s" ∷ rest) == "")) [
      | inl same ↦ cc ((eq_iff ("s" ∷ rest) "").0 same)
      | inr differ ↦ differ
    ]

begins_digest : (t : String) → blank ("sha256:" <> t) ≡ false
begins_digest t = ap blank (append_assoc "s" "ha256:" t) ∙ begins_s ("ha256:" <> t)

abbrev pub HasDigests : Option Envelope × Option Error → Type 0
HasDigests (none, e) = Unit {0}
HasDigests (some env, e) = HasDigest env

check_envelope-HasDigests :
    (env : Envelope) (t : String) → HasDigests (check_envelope env ("sha256:" <> t))
unfolding check_envelope
check_envelope-HasDigests env t =
    let missing = missing_of (required env.finding) in
    elim (Bool-cases (is_empty missing)) [
      | inl complete ↦ rw complete (inr (begins_digest t))
      | inr short ↦ rw short (inr (begins_digest t))
    ]

module _ {Bytes : Type 0} (unmarshal : Bytes → Result Envelope)
    (canonicalize : Bytes → Result Bytes) (sum_of : Bytes → List ℕ) where
  -- Every envelope that `Parse` returns carries a digest that is not blank, an incomplete one too.
  pub parse-HasDigests : (body : Bytes) → HasDigests (parse unmarshal canonicalize sum_of body)
  unfolding parse digest_of
  parse-HasDigests body = elim (Result-cases (unmarshal body)) [
    | inr (e, bad) ↦ rw (bad, parse) tt
    | inl (env, good) ↦ elim (Result-cases (canonicalize body)) [
      | inr (e, bad) ↦ rw (good, bad, parse) tt
      | inl (encoded, fine) ↦
          rw (good, fine, parse) (check_envelope-HasDigests env (hex (sum_of encoded)))
    ]
  ]
