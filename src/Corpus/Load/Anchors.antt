-- ===== src/Corpus/Load/Anchors.antt =====
-- internal/corpus/markdown.go: the ids that headings get.
use Prim.Native.Char.{Char, code}
use Prim.Native.String.{String, [], ◌∷◌}
use ai_k8s.Prelude.{
  ◌≡◌, ◌≢◌, refl, ◌∙◌, inl, inr, ℕ, true, false, ◌||◌, ◌&&◌, ok, arith, Bool-cases, leb, ◌==◌,
  Eq-nat, all, not, ◌-◌,
}
use ai_k8s.Text.{has_char, trim_space}
use ai_k8s.Text.Chars.{has_char-append, has_char-pick}
use ai_k8s.Corpus.Index.{decision, decision_id, parse_id}
use ai_k8s.Corpus.Ids.{parse_id-built}
use ai_k8s.Corpus.Load.Markdown.{lower_letters, anchored_char, anchor_from, anchor}

letters-colon : all (λ s. not (has_char b':' s)) lower_letters ≡ true
unfolding has_char
letters-colon = refl

not_colon :
    (n : ℕ)
    → ((leb b'a' n && leb n b'z') || (leb b'0' n && leb n b'9') || n == b'-' || n == b'_') ≡ true
    → ((n == b':') || false) ≡ false
not_colon n h = ground arith

anchored_char-colon : (c : Char) → has_char b':' (anchored_char c) ≡ false
unfolding has_char anchored_char
anchored_char-colon c =
    elim (Bool-cases (
      (leb b'a' (code c) && leb (code c) b'z')
      || (leb b'0' (code c) && leb (code c) b'9')
      || code c == b'-'
      || code c == b'_')) [
        | inl own ↦ rw own (not_colon (code c) own)
        | inr a ↦ elim (Bool-cases (leb b'A' (code c) && leb (code c) b'Z')) [
          | inl upper ↦
              rw (a, upper) (has_char-pick b':' lower_letters letters-colon (code c - b'A'))
          | inr b ↦ elim (Bool-cases (code c == b' ')) [
            | inl space ↦ rw (a, b, space) refl
            | inr d ↦ elim (Bool-cases (code c == 0x130)) [
              | inl dotted ↦ rw (a, b, d, dotted) refl
              | inr e ↦ elim (Bool-cases (code c == 0x212a)) [
                | inl kelvin ↦ rw (a, b, d, e, kelvin) refl
                | inr f ↦ rw (a, b, d, e, f) refl
              ]
            ]
          ]
        ]
      ]

anchor_from-colon : (s : String) → has_char b':' (anchor_from s) ≡ false
unfolding anchor_from
anchor_from-colon [] = unfold has_char in refl
anchor_from-colon (c ∷ s) =
    has_char-append b':' (anchored_char c) (anchor_from s)
    ∙ rw (anchored_char-colon c) (anchor_from-colon s)

-- Whatever the heading, the id of its decision is read back by `ParseID` as a decision's, unless nothing
-- of the heading is left in its anchor.
pub parse_id-anchor :
    (heading : String) → anchor heading ≢ "" → parse_id (decision_id (anchor heading)) ≡ ok decision
unfolding anchor
parse_id-anchor heading full =
    (parse_id-built (anchor heading) (anchor heading) full full
      (anchor_from-colon (trim_space heading)) (anchor_from-colon (trim_space heading))).0
