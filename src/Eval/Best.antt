-- ===== src/Eval/Best.antt =====
-- internal/eval/score.go: what the loop of `Modal` over the counts finds.
use mathlib.Core.Option
use mathlib.Core.Option.{some-injective}
use mathlib.Core.List.{[]}
use ai_k8s.Prelude.{
  ℕ, ◌+◌, ◌≤◌, ◌≡◌, refl, sym, ap, ◌∙◌, ◌⊎◌, inl, inr, String, true, false, List, ◌∷◌, Option, none,
  some, subst, less_text, nat_eq_iff, ◌==◌, Eq-string, Eq-nat, arith, Bool-cases, eq_iff,
}
use ai_k8s.Corpus.Index.{lookup, insert}
use ai_k8s.Corpus.Maps.{lookup-insert}
use ai_k8s.Eval.Judge.{Run}
use ai_k8s.Eval.Totals.{bump}
use ai_k8s.Eval.Mode.{verdict_counts, beats, best_of}
use ai_k8s.Eval.Numbers.{count_at, count_at-bump}
use ai_k8s.Eval.Weights.{one_if}
use ai_k8s.Text.Order.{less_text_trans, less_text_irrefl, less_text-between}

-- How many of the runs have a verdict.
abbrev pub occurrences : {Float : Type 0} → String → List (Run Float) → ℕ
occurrences v [] = 0
occurrences v (r ∷ rs) = one_if (r.verdict == v) + occurrences v rs

pub verdict_counts-occurrences :
    {Float : Type 0} (v : String) (rs : List (Run Float)) (counts : List (String × ℕ))
    → count_at v (verdict_counts rs counts) ≡ count_at v counts + occurrences v rs
unfolding verdict_counts
verdict_counts-occurrences v [] counts = omega arith
verdict_counts-occurrences v (r ∷ rs) counts = omega (
  arith,
  verdict_counts-occurrences v rs (bump r.verdict counts),
  count_at-bump r.verdict v counts,
)

-- No key stands twice.
abbrev pub Distinct : List (String × ℕ) → Type 0
Distinct [] = Unit
Distinct ((name, n) ∷ rest) = (lookup name rest ≡ none) × Distinct rest

insert-Distinct :
    (name : String) (n : ℕ) (counts : List (String × ℕ))
    → Distinct counts
    → Distinct (insert name n counts)
unfolding insert lookup
insert-Distinct name n [] d = (refl, tt)
insert-Distinct name n ((here, held) ∷ rest) d = elim (Bool-cases (here == name)) [
  | inl same ↦ let e = (eq_iff here name).0 same in rw same (rw (← e) (d.0), d.1)
  | inr differ ↦
      rw differ
        (lookup-insert name here n rest ∙ rw (turned differ) (d.0), insert-Distinct name n rest d.1)
]
  where
    turned : (here == name) ≡ false → (name == here) ≡ false
    turned differ = ground (arith, eq_iff here name, eq_iff name here, differ)

pub verdict_counts-Distinct :
    {Float : Type 0} (rs : List (Run Float)) (counts : List (String × ℕ))
    → Distinct counts
    → Distinct (verdict_counts rs counts)
unfolding verdict_counts bump
verdict_counts-Distinct [] counts d = d
verdict_counts-Distinct (r ∷ rs) counts d =
    verdict_counts-Distinct rs _ (insert-Distinct r.verdict _ counts d)

-- What the loop finds: either its start, or a name with its count; no count is above it, and no name
-- with the same count comes before it.
pub record IsBest (counts : List (String × ℕ)) (best : String) (n : Option ℕ)
    (r : String × Option ℕ) : Type 0 where
  pub from : (r ≡ (best, n)) ⊎ ((k : ℕ) × (r.1 ≡ some k) × (lookup (r.0) counts ≡ some k))
  pub above : (v : String) → count_at v counts ≤ Option.get_or (r.1) 0
  pub start : Option.get_or n 0 ≤ Option.get_or (r.1) 0
  pub level : (m : ℕ) → n ≡ some m → r.1 ≡ some m → less_text best (r.0) ≡ false
  pub first :
      (v : String) (m : ℕ) → lookup v counts ≡ some m → r.1 ≡ some m → less_text v (r.0) ≡ false

beats-above :
    (v : String) (k : ℕ) (best : String) (n : Option ℕ)
    → beats v k best n ≡ true
    → Option.get_or n 0 ≤ k
unfolding beats
beats-above v k best none h = omega arith
beats-above v k best (some n) h = ground arith

beats-below :
    (v : String) (k : ℕ) (best : String) (n : Option ℕ)
    → beats v k best n ≡ false
    → k ≤ Option.get_or n 0
unfolding beats
beats-below v k best none h = cc h
beats-below v k best (some n) h = ground arith

beats-none : (v : String) (k : ℕ) (best : String) → beats v k best none ≡ true
unfolding beats
beats-none v k best = refl

-- Where a name takes the place of another one with the same count, it comes before it.
beats-first :
    (v : String) (k m : ℕ) (best : String)
    → beats v k best (some m) ≡ true
    → k ≤ m
    → (k ≡ m) × (less_text v best ≡ true)
unfolding beats
beats-first v k m best h l = (ground (arith, h, l), ground (arith, h, l))

beats-later :
    (v : String) (k m : ℕ) (best : String)
    → beats v k best (some m) ≡ false
    → m ≤ k
    → (k ≡ m) × (less_text v best ≡ false)
unfolding beats
beats-later v k m best h l =
    let same : k ≡ m = ground (arith, h, l) in (same, ground (arith, h, nat_eq_iff k m, same))

before_all : (a b c : String) → less_text a b ≡ true → less_text a c ≡ false → less_text b c ≡ false
before_all a b c h k = elim (Bool-cases (less_text b c)) [
  | inr done ↦ done
  | inl below ↦ cc (less_text_trans a b c h below, k)
]

module _ (name : String) (k : ℕ) (counts : List (String × ℕ)) where
  -- The names of one more count.
  first_of-cons :
      (r : String × Option ℕ) (m : ℕ)
      → (k ≡ m → less_text name (r.0) ≡ false)
      → ((v : String) → lookup v counts ≡ some m → less_text v (r.0) ≡ false)
      → (v : String) → lookup v ((name, k) ∷ counts) ≡ some m
      → less_text v (r.0) ≡ false
  unfolding lookup
  first_of-cons r m own later v h = elim (Bool-cases (name == v)) [
    | inl same ↦
        subst (λ u. less_text u (r.0) ≡ false) ((eq_iff name v).0 same)
          (own (some-injective k m (rw same at h)))
    | inr differ ↦ later v (rw differ at h)
  ]

  found_later :
      (v : String) (x : ℕ)
      → lookup name counts ≡ none
      → lookup v counts ≡ some x
      → lookup v ((name, k) ∷ counts) ≡ some x
  unfolding lookup
  found_later v x fresh h = elim (Bool-cases (name == v)) [
    | inl same ↦ cc ((eq_iff name v).0 same, fresh, h)
    | inr differ ↦ rw differ h
  ]

  count_at-cons :
      (v : String) (m : ℕ) → k ≤ m → count_at v counts ≤ m → count_at v ((name, k) ∷ counts) ≤ m
  unfolding lookup
  count_at-cons v m h l = elim (Bool-cases (name == v)) [
    | inl same ↦ rw same h
    | inr differ ↦ rw differ l
  ]

  replaced :
      (best : String) (n : Option ℕ) (r : String × Option ℕ)
      → lookup name counts ≡ none
      → IsBest counts name (some k) r
      → beats name k best n ≡ true
      → IsBest ((name, k) ∷ counts) best n r
  unfolding lookup
  replaced best n r fresh b h = record {
    from = inr (found b.from);
    above = λ v. count_at-cons v _ b.start (b.above v);
    start = omega (arith, b.start, beats-above name k best n h);
    level = before;
    first = λ v m there won.
        first_of-cons r m (λ e. b.level m (ap some e) won) (λ u held. b.first u m held won) v there;
  }
    where
      before : (m : ℕ) → n ≡ some m → r.1 ≡ some m → less_text best (r.0) ≡ false
      before m held won =
          let (same, lower) = beats-first name k m best (rw held at h) (rw won at (b.start)) in
          before_all name best (r.0) lower (b.level m (ap some same) won)

      found :
          (r ≡ (name, some k)) ⊎ ((x : ℕ) × (r.1 ≡ some x) × (lookup (r.0) counts ≡ some x))
          → (x : ℕ) × (r.1 ≡ some x) × (lookup (r.0) ((name, k) ∷ counts) ≡ some x)
      found (inl e) = (
        k,
        ap (λ q. q.1) e,
        ap (λ q. lookup q.0 ((name, k) ∷ counts)) e ∙ rw ((eq_iff name name).1 refl) refl,
      )
      found (inr (x, e, l)) = (x, e, found_later r.0 x fresh l)

  passed :
      (best : String) (n : Option ℕ) (r : String × Option ℕ)
      → lookup name counts ≡ none
      → IsBest counts best n r
      → beats name k best n ≡ false
      → IsBest ((name, k) ∷ counts) best n r
  passed best n r fresh b h = record {
    from = found b.from;
    above =
        λ v. count_at-cons v _ (omega (arith, b.start, beats-below name k best n h)) (b.above v);
    start = b.start;
    level = b.level;
    first = λ v m there won.
        first_of-cons r m (λ e. behind n h b.start b.level m e won) (λ u held. b.first u m held won)
          v there;
  }
    where
      behind :
          (n : Option ℕ)
          → beats name k best n ≡ false
          → Option.get_or n 0 ≤ Option.get_or (r.1) 0
          → ((m : ℕ) → n ≡ some m → r.1 ≡ some m → less_text best (r.0) ≡ false)
          → (m : ℕ) → k ≡ m
          → r.1 ≡ some m
          → less_text name (r.0) ≡ false
      behind none worse start level m e won = cc (beats-none name k best, worse)
      behind (some x) worse start level m e won =
          let (same, upper) =
            beats-later name k x best worse (omega (arith, (rw won at start), e)) in
          less_text-between name best (r.0) upper (level m (ap some (sym same ∙ e)) won)

      found :
          (r ≡ (best, n)) ⊎ ((x : ℕ) × (r.1 ≡ some x) × (lookup (r.0) counts ≡ some x))
          → (r ≡ (best, n))
            ⊎ ((x : ℕ) × (r.1 ≡ some x) × (lookup (r.0) ((name, k) ∷ counts) ≡ some x))
      found (inl e) = inl e
      found (inr (x, e, l)) = inr (x, e, found_later r.0 x fresh l)

pub best_of-IsBest :
    (counts : List (String × ℕ)) (best : String) (n : Option ℕ)
    → Distinct counts
    → IsBest counts best n (best_of counts best n)
unfolding best_of lookup
best_of-IsBest [] best n d = record {
  from = inl refl;
  above = λ v. omega arith;
  start = omega arith;
  level = λ m held won. less_text_irrefl best;
  first = λ v m there won. cc there;
}
best_of-IsBest ((name, k) ∷ counts) best n d =
    let taken = best_of-IsBest counts name (some k) d.1 in
    let kept = best_of-IsBest counts best n d.1 in
    elim (Bool-cases (beats name k best n)) [
      | inl better ↦
          rw better (replaced name k counts best n (best_of counts name (some k)) d.0 taken better)
      | inr worse ↦ rw worse (passed name k counts best n (best_of counts best n) d.0 kept worse)
    ]
