-- ===== src/Eval/Score.antt =====
-- What `Judge` (internal/eval/score.go) calls right.
use mathlib.Core.List.{[], Memᴰ}
use mathlib.Core.List.Memᴰ
use ai_k8s.Prelude.{
  ◌≡◌, refl, sym, ◌↔◌, ◌⊎◌, inl, inr, String, true, false, ◌||◌, List, ◌∷◌, Bool-cases, All, ◌==◌,
  Eq-string, eq_iff, arith,
}
use ai_k8s.Eval.Judge.{Case, Run, contains_text, misses_required}

pub contains_text_iff : (xs : List String) (s : String) → (contains_text xs s ≡ true) ↔ Memᴰ s xs
unfolding contains_text
contains_text_iff [] s = (λ h. cc h, λ m. absurd (Memᴰ.not-nil m))
contains_text_iff (x ∷ xs) s =
    let below = contains_text_iff xs s in
    (
      λ h. elim (Bool-cases (x == s)) [
        | inl same ↦ Memᴰ.head (sym ((eq_iff x s).0 same))
        | inr differ ↦ Memᴰ.tail (below.0 (rw differ at h))
      ],
      λ m. back (Memᴰ.cases_cons m) below.1,
    )
  where
    back :
        (s ≡ x) ⊎ Memᴰ s xs
        → (Memᴰ s xs → contains_text xs s ≡ true)
        → ((x == s) || contains_text xs s) ≡ true
    back (inl e) f = rw ((eq_iff x s).1 (sym e)) refl
    back (inr m) f = ground (arith, f m)

-- The verdict is one that the case takes, on evidence that the case knows.
pub record IsEarned {Float : Type 0} (c : Case) (r : Run Float) : Type 0 where
  pub completed : r.error ≡ ""
  pub verdict : (r.verdict ≡ c.prefer) ⊎ Memᴰ r.verdict c.accept
  pub supported : All (λ id. Memᴰ id c.support) r.citations
  pub required : misses_required c r ≡ false
