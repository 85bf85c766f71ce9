-- ===== src/Corpus/Ids.antt =====
-- The ids that the constructors of internal/corpus/id.go build, as `ParseID` reads them.
use Prim.Native.Char.{Char, code}
use Prim.Native.String.{String, [], ◌∷◌}
use text.Mathlib.TextLemmas.{append_assoc, nil-append, cons-append, append-nil}
use ai_k8s.Prelude.{
  ℕ, ◌<>◌, ◌≡◌, ◌≢◌, refl, ap, ◌∙◌, inl, inr, Bool, false, ◌||◌, List, ok, arith, Bool-cases, ◌==◌,
  Eq-nat, Eq-string, eq_iff,
}
use ai_k8s.Text.{has_char, split_from, split}
use ai_k8s.Corpus.Index.{
  checkov, decision, control, checkov_id, decision_id, control_id, parse_parts, parse_id,
}

-- The character that is read next goes to the end of the part.
shifted : (cur : String) (c : Char) (s : String) → (cur <> (c ∷ [])) <> s ≡ cur <> (c ∷ s)
shifted cur c s =
    append_assoc cur (c ∷ []) s
    ∙ ap (λ (t : String). cur <> t) (cons-append c [] s ∙ ap (λ (t : String). c ∷ t) (nil-append s))

others : (b r : Bool) → (b || r) ≡ false → (b ≡ false) × (r ≡ false)
others b r h = ground arith

split_from-last :
    (k : ℕ) (cur s : String)
    → has_char k s ≡ false
    → split_from k cur s ≡ List.◌∷◌ (cur <> s) List.[]
unfolding has_char split_from
split_from-last k cur [] h = rw append-nil
split_from-last k cur (c ∷ s) h =
    let (plain, rest) = others (code c == k) (has_char k s) h in
    rw plain (
      split_from-last k (cur <> (c ∷ [])) s rest
      ∙ ap (λ (t : String). List.◌∷◌ t List.[]) (shifted cur c s))

colon_cons : (b : String) → ":" <> b ≡ ":" ∷ b
colon_cons b = cons-append _ [] b ∙ ap (λ (t : String). ":" ∷ t) (nil-append b)

-- A part without a colon, and a colon behind it.
pub split_from-colon :
    (cur a b : String)
    → has_char b':' a ≡ false
    → split_from b':' cur (a <> (":" <> b)) ≡ List.◌∷◌ (cur <> a) (split_from b':' "" b)
unfolding has_char split_from
split_from-colon cur [] b h = rw (nil-append, append-nil, colon_cons)
split_from-colon cur (c ∷ a) b h =
    let (plain, rest) = others (code c == b':') (has_char b':' a) h in
    rw cons-append (
      rw plain (
        split_from-colon (cur <> (c ∷ [])) a b rest
        ∙ ap (λ (t : String). List.◌∷◌ t (split_from b':' "" b)) (shifted cur c a)))

split-two :
    (kind name : String)
    → has_char b':' kind ≡ false
    → has_char b':' name ≡ false
    → split (kind <> (":" <> name)) b':' ≡ List.◌∷◌ kind (List.◌∷◌ name List.[])
unfolding split
split-two kind name h k =
    split_from-colon "" kind name h
    ∙ rw (split_from-last b':' "" name k, nil-append kind, nil-append name) refl

not_empty : (s : String) → s ≢ "" → (s == "") ≡ false
not_empty s h = elim (Bool-cases (s == "")) [
  | inl same ↦ absurd (h ((eq_iff s "").0 same))
  | inr differ ↦ differ
]

split-named :
    (kind name : String)
    → has_char b':' kind ≡ false
    → has_char b':' name ≡ false
    → split ((kind <> ":") <> name) b':' ≡ List.◌∷◌ kind (List.◌∷◌ name List.[])
split-named kind name h k =
    ap (λ (t : String). split t b':') (append_assoc kind ":" name) ∙ split-two kind name h k

split-checkov :
    (check address : String)
    → has_char b':' check ≡ false
    → has_char b':' address ≡ false
    → split ("checkov:" <> (check <> (":" <> address))) b':'
      ≡ List.◌∷◌ "checkov" (List.◌∷◌ check (List.◌∷◌ address List.[]))
unfolding split
split-checkov check address h k =
    ap (λ (t : String). split t b':') (append_assoc "checkov" ":" (check <> (":" <> address)))
    ∙ split_from-colon "" "checkov" (check <> (":" <> address)) (unfold has_char in refl)
    ∙ ap (List.◌∷◌ "checkov") (
        split_from-colon "" check address h
        ∙ rw (split_from-last b':' "" address k, nil-append check, nil-append address) refl)

-- An id that `DecisionID`, `ControlID` or `CheckovID` builds of parts that are not empty and hold no
-- colon is read back by `ParseID` as one of its kind.
pub parse_id-built :
    (name address : String)
    → name ≢ ""
    → address ≢ ""
    → has_char b':' name ≡ false
    → has_char b':' address ≡ false
    → (parse_id (decision_id name) ≡ ok decision)
      × (parse_id (control_id name) ≡ ok control)
      × (parse_id (checkov_id name address) ≡ ok checkov)
unfolding parse_id decision_id control_id checkov_id parse_parts
parse_id-built name address h h' k k' = (
  rw (split-named "decision" name (unfold has_char in refl) k) (rw (not_empty name h) refl),
  rw (split-named "control" name (unfold has_char in refl) k) (rw (not_empty name h) refl),
  rw (split-checkov name address k k') (rw (not_empty name h, not_empty address h') refl),
)
