-- ===== src/Eval/Numbers.antt =====
-- internal/eval/score.go: what each run and each case adds to the numbers of a summary.
use mathlib.Core.Option
use mathlib.Core.List.{[]}
use ai_k8s.Prelude.{
  ℕ, Option, all, suc, ◌+◌, ◌≡◌, ◌≢◌, refl, sym, ap, ◌∙◌, inl, inr, String, not, ◌&&◌, List, ◌∷◌,
  if◌then◌else◌, is_empty, ◌==◌, Eq-string, arith, Bool-cases, eq_iff,
}
use ai_k8s.Corpus.Index.{lookup}
use ai_k8s.Corpus.Maps.{lookup-insert}
use ai_k8s.Eval.Judge.{Run}
use ai_k8s.Eval.Totals.{
  CaseResult, Tally, Summary, error_name, bump, tallied, Totals, count_judgement, count_call,
  count_run, count_runs, end_case, count_case, count_cases,
}
use ai_k8s.Eval.Weights.{
  one_if, weight_of, weight_of_runs, JudgedPart, judged_part, judged_part-count_run, Weighs,
  measure-count_cases,
}

-- The count under a name.
abbrev pub count_at : String → List (String × ℕ) → ℕ
count_at name counts = Option.get_or (lookup name counts) 0

abbrev pub tally_at : String → List (String × Tally) → Tally
tally_at kind by_kind = Option.get_or (lookup kind by_kind) (record { right = 0; runs = 0 })

pub count_at-bump :
    (name other : String) (counts : List (String × ℕ))
    → count_at other (bump name counts) ≡ count_at other counts + one_if (name == other)
unfolding bump
count_at-bump name other counts =
    ap (λ o. Option.get_or o 0) (lookup-insert name other (suc (count_at name counts)) counts)
    ∙ ground (arith, eq_iff name other)

-- The cases that are right on every run, of which there is one at least.
abbrev pub reliable_cases : {Float : Type 0} → List (CaseResult Float) → ℕ
reliable_cases [] = 0
reliable_cases (cr ∷ crs) =
    one_if (not (is_empty cr.runs) && all (λ r. r.judgement.right) cr.runs) + reliable_cases crs

-- A weight of nothing sums up to nothing.
module _ {Float : Type 0} where
  nothing_in : (kind : String) (rs : List (Run Float)) → weight_of_runs (λ kind r. 0) kind rs ≡ 0
  unfolding weight_of_runs
  nothing_in kind [] = refl
  nothing_in kind (r ∷ rs) = omega (arith, nothing_in kind rs)

  nothing : (crs : List (CaseResult Float)) → weight_of (λ kind r. 0) crs ≡ 0
  unfolding weight_of
  nothing [] = refl
  nothing (cr ∷ crs) = omega (arith, nothing_in cr.kind cr.runs, nothing crs)

module _ {Float : Type 0} (add_float : Float → Float → Float) where
  pub judged-Weighs :
      (f : JudgedPart → ℕ) (w : String → Run Float → ℕ)
      → ((kind : String) (r : Run Float) (s : Summary Float)
          → f (judged_part (count_judgement add_float kind r s)) ≡ f (judged_part s) + w kind r)
      → Weighs add_float (λ s. f (judged_part s)) w
  unfolding end_case
  judged-Weighs f w step = record {
    run = λ kind r t. ap f (judged_part-count_run add_float kind r t) ∙ step kind r t.summary;
    finish = λ t. refl;
  }

  pub runs-Weighs : Weighs add_float (λ s. s.runs) (λ kind r. 1)
  unfolding count_judgement
  runs-Weighs = judged-Weighs (λ j. j.runs) _ λ kind r s. omega arith

  pub right-Weighs : Weighs add_float (λ s. s.right) (λ kind r. one_if r.judgement.right)
  unfolding count_judgement
  right-Weighs = judged-Weighs (λ j. j.right) _ λ kind r s. ground arith

  pub preferred-Weighs :
      Weighs add_float (λ s. s.preferred) (λ kind r. one_if r.judgement.preferred)
  unfolding count_judgement
  preferred-Weighs = judged-Weighs (λ j. j.preferred) _ λ kind r s. ground arith

  pub unsupported-Weighs :
      Weighs add_float
        (λ s. s.unsupported)
        (λ kind r. one_if (not (is_empty r.judgement.unsupported)))
  unfolding count_judgement
  unsupported-Weighs = judged-Weighs (λ j. j.unsupported) _ λ kind r s. ground arith

  pub errors-Weighs :
      (name : String)
      → name ≢ ""
      → Weighs add_float
          (λ s. count_at name s.errors)
          (λ kind r. one_if (error_name r.judgement.error == name))
  unfolding count_judgement
  errors-Weighs name named =
      judged-Weighs (λ j. count_at name j.errors) _
        λ kind r s. elim (Bool-cases (error_name r.judgement.error == "")) [
          | inl unset ↦
              let e = (eq_iff (error_name r.judgement.error) "").0 unset in
              elim (Bool-cases (error_name r.judgement.error == name)) [
                | inl same ↦
                    absurd (named (sym ((eq_iff (error_name r.judgement.error) name).0 same) ∙ e))
                | inr differ ↦ rw (unset, differ) (omega arith)
              ]
          | inr set ↦ rw set (count_at-bump (error_name r.judgement.error) name s.errors)
        ]

  pub tally_runs-Weighs :
      (k : String)
      → Weighs add_float (λ s. (tally_at k s.by_kind).runs) (λ kind r. one_if (kind == k))
  unfolding count_judgement tallied
  tally_runs-Weighs k =
      judged-Weighs (λ j. (tally_at k j.by_kind).runs) _
        λ kind r s.
          ap
            (λ (o : Option Tally).
              (Option.get_or {A = Tally} o (record { right = 0; runs = 0 })).runs)
            (lookup-insert kind k _ s.by_kind)
          ∙ ground (arith, eq_iff kind k)

  pub tally_right-Weighs :
      (k : String)
      → Weighs add_float
          (λ s. (tally_at k s.by_kind).right)
          (λ kind r. one_if (kind == k && r.judgement.right))
  unfolding count_judgement tallied
  tally_right-Weighs k =
      judged-Weighs (λ j. (tally_at k j.by_kind).right) _
        λ kind r s.
          ap
            (λ (o : Option Tally).
              (Option.get_or {A = Tally} o (record { right = 0; runs = 0 })).right)
            (lookup-insert kind k _ s.by_kind)
          ∙ ground (arith, eq_iff kind k)

  pub failed-Weighs :
      Weighs add_float (λ s. s.calls_failed) (λ kind r. one_if (not (r.error == "")))
  unfolding count_run count_judgement count_call end_case
  failed-Weighs = record { run = λ kind r t. ground arith; finish = λ t. refl }

  pub calls-Weighs :
      Weighs add_float (λ s. s.model_calls) (λ kind r. one_if (r.error == "" && r.called))
  unfolding count_run count_judgement count_call end_case
  calls-Weighs = record { run = λ kind r t. ground arith; finish = λ t. refl }

  pub input-Weighs :
      Weighs add_float
        (λ s. s.input_tokens)
        (λ kind r. if r.error == "" && r.called then r.input_tokens else 0)
  unfolding count_run count_judgement count_call end_case
  input-Weighs = record { run = λ kind r t. ground arith; finish = λ t. refl }

  pub output-Weighs :
      Weighs add_float
        (λ s. s.output_tokens)
        (λ kind r. if r.error == "" && r.called then r.output_tokens else 0)
  unfolding count_run count_judgement count_call end_case
  output-Weighs = record { run = λ kind r t. ground arith; finish = λ t. refl }

  all_right-count_run :
      (kind : String) (r : Run Float) (t : Totals add_float)
      → ((count_run add_float kind r t).all_right ≡ (t.all_right && r.judgement.right))
        × ((count_run add_float kind r t).summary.cases_right_every_run
            ≡ t.summary.cases_right_every_run)
  unfolding count_run count_judgement count_call
  all_right-count_run kind r t = elim (Bool-cases (r.error == "")) [
    | inr failed ↦ rw failed (refl, refl)
    | inl whole ↦ elim (Bool-cases (r.called)) [
      | inl called ↦ rw (whole, called) (refl, refl)
      | inr free ↦ rw (whole, free) (refl, refl)
    ]
  ]

  all_right-count_runs :
      (kind : String) (rs : List (Run Float)) (t : Totals add_float)
      → ((count_runs add_float kind rs t).all_right
          ≡ (t.all_right && all (λ r. r.judgement.right) rs))
        × ((count_runs add_float kind rs t).summary.cases_right_every_run
            ≡ t.summary.cases_right_every_run)
  unfolding count_runs
  all_right-count_runs kind [] t = (ground arith, refl)
  all_right-count_runs kind (r ∷ rs) t =
      let below = all_right-count_runs kind rs (count_run add_float kind r t) in
      let own = all_right-count_run kind r t in (ground (arith, below.0, own.0), below.1 ∙ own.1)

  pub cases_right-count_cases :
      (crs : List (CaseResult Float)) (t : Totals add_float)
      → (count_cases add_float crs t).summary.cases_right_every_run
        ≡ t.summary.cases_right_every_run + reliable_cases crs
  unfolding count_cases
  cases_right-count_cases [] t = omega arith
  cases_right-count_cases (cr ∷ crs) t =
      let start : Totals add_float = record t {
        all_right = not (is_empty cr.runs);
        verdicts = [];
      } in
      let (right, same) = all_right-count_runs cr.kind cr.runs start in
      let own : (count_case add_float cr t).summary.cases_right_every_run
          ≡ t.summary.cases_right_every_run
            + one_if (not (is_empty cr.runs) && all (λ r. r.judgement.right) cr.runs) =
        unfold count_case end_case in ground (arith, right, same) in
      omega (arith, own, cases_right-count_cases crs (count_case add_float cr t))

  pub cases-Weighs : Weighs add_float (λ s. s.cases) (λ kind r. 0)
  unfolding count_run count_judgement count_call end_case
  cases-Weighs = record { run = λ kind r t. ground arith; finish = λ t. refl }

  pub cases_kept :
      (crs : List (CaseResult Float)) (t : Totals add_float)
      → (count_cases add_float crs t).summary.cases ≡ t.summary.cases
  cases_kept crs t =
      omega (arith, measure-count_cases add_float _ _ cases-Weighs crs t, nothing crs)
