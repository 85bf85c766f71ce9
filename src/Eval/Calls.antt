-- ===== src/Eval/Calls.antt =====
-- internal/eval/score.go: what `Summarize` keeps of the model's calls, in their order.
use mathlib.Core.List.{[], append_assoc, append-nil}
use ai_k8s.Prelude.{
  ◌++◌, ◌≡◌, refl, sym, ap, ◌∙◌, inl, inr, ℕ, String, not, ◌&&◌, List, ◌∷◌, if◌then◌else◌, is_empty,
  ◌==◌, Eq-string, Bool-cases,
}
use ai_k8s.Eval.Judge.{Run}
use ai_k8s.Eval.Totals.{
  CaseResult, Totals, count_judgement, count_call, count_run, count_runs, end_case, count_case,
  count_cases,
}

module _ {Float : Type 0} where
  -- The completed runs that called the model, of a case and of all cases.
  abbrev pub calls_in : List (Run Float) → List (Run Float)
  calls_in [] = []
  calls_in (r ∷ rs) = let rest = calls_in rs in if r.error == "" && r.called then r ∷ rest else rest

  abbrev pub calls_of : List (CaseResult Float) → List (Run Float)
  calls_of [] = []
  calls_of (cr ∷ crs) = calls_in cr.runs ++ calls_of crs

  abbrev pub latencies_of : List (Run Float) → List ℕ
  latencies_of [] = []
  latencies_of (r ∷ rs) = r.latency_ms ∷ latencies_of rs

  latencies_of-append :
      (rs more : List (Run Float))
      → latencies_of (rs ++ more) ≡ latencies_of rs ++ latencies_of more
  latencies_of-append [] more = refl
  latencies_of-append (r ∷ rs) more = ap (λ ns. r.latency_ms ∷ ns) (latencies_of-append rs more)

module _ {Float : Type 0} (add_float : Float → Float → Float) where
  -- The cost of runs, added to what was spent before, one after another.
  abbrev pub spent : Float → List (Run Float) → Float
  spent so_far [] = so_far
  spent so_far (r ∷ rs) = spent (add_float so_far r.cost_usd) rs

  spent-append :
      (so_far : Float) (rs more : List (Run Float))
      → spent so_far (rs ++ more) ≡ spent (spent so_far rs) more
  spent-append so_far [] more = refl
  spent-append so_far (r ∷ rs) more = spent-append (add_float so_far r.cost_usd) rs more

  -- The totals after some calls: their latencies are appended, and their costs added.
  pub record Called (calls : List (Run Float)) (t t' : Totals add_float) : Type 0 where
    pub latencies : t'.latencies ≡ t.latencies ++ latencies_of calls
    pub cost : t'.summary.cost_usd ≡ spent t.summary.cost_usd calls

  Called-append :
      (rs more : List (Run Float)) (t t' t'' : Totals add_float)
      → Called rs t t'
      → Called more t' t''
      → Called (rs ++ more) t t''
  Called-append rs more t t' t'' a b = record {
    latencies =
        b.latencies
        ∙ (ap (λ ns. ns ++ latencies_of more) a.latencies
            ∙ (append_assoc t.latencies (latencies_of rs) (latencies_of more)
                ∙ ap (λ ns. t.latencies ++ ns) (sym (latencies_of-append rs more))));
    cost = b.cost ∙ (ap (λ c. spent c more) a.cost ∙ sym (spent-append t.summary.cost_usd rs more));
  }

  count_run-Called :
      (kind : String) (r : Run Float) (t : Totals add_float)
      → Called (calls_in (r ∷ [])) t (count_run add_float kind r t)
  unfolding count_run count_judgement count_call
  count_run-Called kind r t = elim (Bool-cases (r.error == "")) [
    | inr failed ↦ rw failed (record { latencies = sym (append-nil t.latencies); cost = refl })
    | inl whole ↦ elim (Bool-cases (r.called)) [
      | inl called ↦ rw (whole, called) (record { latencies = refl; cost = refl })
      | inr free ↦
          rw (whole, free) (record { latencies = sym (append-nil t.latencies); cost = refl })
    ]
  ]

  calls_in-cons :
      (r : Run Float) (rs : List (Run Float)) → calls_in (r ∷ rs) ≡ calls_in (r ∷ []) ++ calls_in rs
  calls_in-cons r rs = elim (Bool-cases (r.error == "" && r.called)) [
    | inl called ↦ rw called refl
    | inr free ↦ rw free refl
  ]

  count_runs-Called :
      (kind : String) (rs : List (Run Float)) (t : Totals add_float)
      → Called (calls_in rs) t (count_runs add_float kind rs t)
  unfolding count_runs
  count_runs-Called kind [] t = record { latencies = sym (append-nil t.latencies); cost = refl }
  count_runs-Called kind (r ∷ rs) t = rw (calls_in-cons r rs) (
      Called-append (calls_in (r ∷ [])) (calls_in rs) t (count_run add_float kind r t) _
        (count_run-Called kind r t) (count_runs-Called kind rs (count_run add_float kind r t)))

  count_case-Called :
      (cr : CaseResult Float) (t : Totals add_float)
      → Called (calls_in cr.runs) t (count_case add_float cr t)
  unfolding count_case end_case
  count_case-Called cr t =
      let ran =
        count_runs-Called cr.kind cr.runs
          (record t { all_right = not (is_empty cr.runs); verdicts = [] }) in
      record { latencies = ran.latencies; cost = ran.cost }

  -- After the loops of `Summarize`.
  pub count_cases-Called :
      (crs : List (CaseResult Float)) (t : Totals add_float)
      → Called (calls_of crs) t (count_cases add_float crs t)
  unfolding count_cases
  count_cases-Called [] t = record { latencies = sym (append-nil t.latencies); cost = refl }
  count_cases-Called (cr ∷ crs) t =
      Called-append (calls_in cr.runs) (calls_of crs) t (count_case add_float cr t) _
        (count_case-Called cr t) (count_cases-Called crs (count_case add_float cr t))
