-- ===== src/Eval/Modal.antt =====
-- internal/eval/score.go: `Modal` returns a most frequent verdict.
use mathlib.Core.Option
use mathlib.Core.Option.{some-injective}
use mathlib.Core.List.{[]}
use ai_k8s.Prelude.{
  ℕ, ◌+◌, ◌≤◌, ◌≡◌, refl, sym, ap, ◌∙◌, ◌⊎◌, inl, inr, String, false, List, ◌∷◌, none, some,
  less_text, Eq-string, Eq-nat, arith, Option-cases, length, eq_iff,
}
use ai_k8s.Corpus.Index.{lookup}
use ai_k8s.Eval.Judge.{Run}
use ai_k8s.Eval.Totals.{CaseResult}
use ai_k8s.Eval.Mode.{completed, verdict_counts, best_of, Mode, mode_of, modal}
use ai_k8s.Eval.Numbers.{count_at}
use ai_k8s.Text.Order.{less_text-nil}
use ai_k8s.Eval.Best.{
  occurrences, verdict_counts-occurrences, verdict_counts-Distinct, IsBest, best_of-IsBest,
}

-- A verdict that as many runs have as the mode says, no other one more, and none before it as many.
pub record IsMode {Float : Type 0} (rs : List (Run Float)) (m : Mode) : Type 0 where
  pub occurs : occurrences m.verdict rs ≡ m.count
  pub most : (v : String) → occurrences v rs ≤ m.count
  pub least : (v : String) → occurrences v rs ≡ m.count → less_text v m.verdict ≡ false
  pub all_runs : m.of ≡ length rs

mode_of-IsMode : {Float : Type 0} (rs : List (Run Float)) → IsMode rs (mode_of rs)
unfolding mode_of lookup
mode_of-IsMode [] = record {
  occurs = refl;
  most = λ v. omega arith;
  least = λ v h. less_text-nil v;
  all_runs = refl;
}
mode_of-IsMode {Float} (r ∷ rs) =
    let counts = verdict_counts (r ∷ rs) [] in
    let b = best_of-IsBest counts "" none (verdict_counts-Distinct (r ∷ rs) [] tt) in
    let reads = λ (v : String). verdict_counts-occurrences v (r ∷ rs) [] in
    record {
      occurs = omega (
        arith,
        reads (best_of counts "" none).0,
        counted counts b.from (b.above r.verdict) (reads r.verdict),
      );
      most = λ v. omega (arith, reads v, b.above v);
      least = λ v h.
          tie counts b v (omega (arith, reads v, h))
            (omega (arith, reads r.verdict, b.above r.verdict, own_verdict));
      all_runs = refl;
    }
  where
    own_verdict : 1 ≤ occurrences r.verdict (r ∷ rs)
    own_verdict = rw ((eq_iff r.verdict r.verdict).1 refl) (omega arith)

    -- A name with the count of the best one, which is not 0, has that count in the list.
    tie :
        (counts : List (String × ℕ))
        → IsBest counts "" none (best_of counts "" none)
        → (v : String) → count_at v counts ≡ Option.get_or ((best_of counts "" none).1) 0
        → 1 ≤ Option.get_or ((best_of counts "" none).1) 0
        → less_text v ((best_of counts "" none).0) ≡ false
    tie counts b v same some_run = elim (Option-cases ((best_of counts "" none).1)) [
      | inl nothing ↦ absurd (ground (arith, (rw nothing at some_run)))
      | inr (m, won) ↦ elim (Option-cases (lookup v counts)) [
        | inl missing ↦ absurd (ground (arith, (rw (missing, won) at same), (rw won at some_run)))
        | inr (x, there) ↦ b.first v m (there ∙ ap some (rw (there, won) at same)) won
      ]
    ]

    counted :
        (counts : List (String × ℕ))
        → (best_of counts "" none ≡ ("", none))
          ⊎ ((k : ℕ) × ((best_of counts "" none).1 ≡ some k)
              × (lookup ((best_of counts "" none).0) counts ≡ some k))
        → count_at r.verdict counts ≤ Option.get_or ((best_of counts "" none).1) 0
        → count_at r.verdict counts ≡ 0 + occurrences r.verdict (r ∷ rs)
        → count_at ((best_of counts "" none).0) counts
          ≡ Option.get_or ((best_of counts "" none).1) 0
    counted counts (inl e) a c =
        let zero_count : Option.get_or ((best_of counts "" none).1) 0 ≡ 0 =
          ap (λ q. Option.get_or (q.1) 0) e in
        absurd (ground (arith, zero_count, a, c, (eq_iff r.verdict r.verdict).1 refl))
    counted counts (inr (k, e, l)) a c = ap (λ o. Option.get_or o 0) (l ∙ sym e)

-- `Modal` returns a verdict that none of the completed runs' verdicts outnumbers, and of those with as
-- many runs the first in the order of texts, with the number of the runs that have it and the number of
-- all completed runs.
pub modal-IsMode : {Float : Type 0} (cr : CaseResult Float) → IsMode (completed cr.runs) (modal cr)
unfolding modal
modal-IsMode cr = mode_of-IsMode (completed cr.runs)
