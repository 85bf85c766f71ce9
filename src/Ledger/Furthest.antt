-- ===== src/Ledger/Furthest.antt =====
-- `Furthest` (internal/ledger/ledger.go): the state that it finds is recorded, and none beyond it.
use mathlib.Core.List.{[], Memᴰ}
use mathlib.Core.List.Memᴰ
use ai_k8s.Prelude.{
  ◌==◌, ltb, true, ℕ, ◌≤◌, ◌<>◌, ◌≡◌, refl, sym, ap, subst, ◌∙◌, ◌⊎◌, inl, inr, String, List, ◌∷◌,
  Option, none, some, arith, Bool-cases, Result-cases, ok, Eq-string, eq_iff, eq_refl, ok-injective,
}
use ai_k8s.Text.{has_prefix}
use ai_k8s.Corpus.Index.{lookup}
use ai_k8s.Corpus.Maps.{lookup-cons}
use ai_k8s.Ledger.Store.{Store, names_under, list}
use ai_k8s.Ledger.Names.{state_in-object_name, object_name-under}
use ai_k8s.Ledger.Append.{list-objects}
use ai_k8s.Ledger.State.{
  State, received, classified, notification_attempted, acknowledged, other, before, state_in,
  further, furthest_of, furthest, is_state, object_name,
}

-- How far a state is, from 1 on; 0 is nothing found.
abbrev pub level : State → ℕ
level received = 2
level classified = 3
level notification_attempted = 4
level acknowledged = 5
level (other s) = 1

abbrev pub height : Option State → ℕ
height none = 0
height (some s) = level s

pub before-level : (s t : State) → before s t ≡ ltb (level s) (level t)
unfolding before
before-level s t = ground arith

further_step :
    (sofar found : Option State)
    → (height sofar ≤ height (further sofar found))
      × (height found ≤ height (further sofar found))
      × ((further sofar found ≡ sofar) ⊎ (further sofar found ≡ found))
unfolding further
further_step none none = (omega arith, omega arith, inl refl)
further_step (some t) none = (omega arith, omega arith, inl refl)
further_step none (some s) = (omega arith, omega arith, inr refl)
further_step (some t) (some s) = elim (Bool-cases (before t s)) [
  | inl ahead ↦ rw ahead (ground (arith, before-level t s), omega arith, inr refl)
  | inr behind ↦ rw behind (omega arith, ground (arith, before-level t s), inl refl)
]

furthest_of_bound :
    (key : String) (sofar : Option State) (names : List String)
    → height sofar ≤ height (furthest_of key sofar names)
unfolding furthest_of
furthest_of_bound key sofar [] = omega arith
furthest_of_bound key sofar (name ∷ names) = omega (
  arith,
  (further_step sofar (state_in key name)).0,
  furthest_of_bound key (further sofar (state_in key name)) names,
)

-- Every name under the key counts.
pub furthest_of_covers :
    (key : String) (sofar : Option State) (names : List String) {name : String}
    → Memᴰ name names
    → height (state_in key name) ≤ height (furthest_of key sofar names)
unfolding furthest_of
furthest_of_covers key sofar [] m = elim m [ ]
furthest_of_covers key sofar (name ∷ names) (Memᴰ.head same) = rw same (
    omega (
      arith,
      (further_step sofar (state_in key name)).1,
      furthest_of_bound key (further sofar (state_in key name)) names,
    ))
furthest_of_covers key sofar (name ∷ names) (Memᴰ.tail m) =
    furthest_of_covers key (further sofar (state_in key name)) names m

-- What is found is where the scan began, or is said by a name.
furthest_of_source :
    (key : String) (sofar : Option State) (names : List String)
    → (furthest_of key sofar names ≡ sofar)
      ⊎ ((name : String) × Memᴰ name names × (furthest_of key sofar names ≡ state_in key name))
unfolding furthest_of
furthest_of_source key sofar [] = inl refl
furthest_of_source key sofar (name ∷ names) =
    join_source (further_step sofar (state_in key name)).2
      (furthest_of_source key (further sofar (state_in key name)) names)
  where
    join_source :
        (further sofar (state_in key name) ≡ sofar)
          ⊎ (further sofar (state_in key name) ≡ state_in key name)
        → (furthest_of key (further sofar (state_in key name)) names
            ≡ further sofar (state_in key name))
          ⊎ ((n : String) × Memᴰ n names
              × (furthest_of key (further sofar (state_in key name)) names ≡ state_in key n))
        → (furthest_of key (further sofar (state_in key name)) names ≡ sofar)
          ⊎ ((n : String) × Memᴰ n (name ∷ names)
              × (furthest_of key (further sofar (state_in key name)) names ≡ state_in key n))
    join_source (inl old) (inl e) = inl (e ∙ old)
    join_source (inr here) (inl e) = inr (name, Memᴰ.head refl, e ∙ here)
    join_source _ (inr (n, m, e)) = inr (n, Memᴰ.tail m, e)

module _ {Bytes : Type 0} where
  pub names_under_sound :
      (prefix : String) (objects : List (String × Bytes)) {name : String}
      → Memᴰ name (names_under prefix objects)
      → (has_prefix name prefix ≡ true) × ((body : Bytes) × (lookup name objects ≡ some body))
  unfolding names_under
  names_under_sound prefix [] m = absurd (Memᴰ.not-nil m)
  names_under_sound prefix ((j, b) ∷ objects) {name} m = elim (Bool-cases (has_prefix j prefix)) [
    | inr outside ↦ later (names_under_sound prefix objects (rw outside at m))
    | inl inside ↦
        first inside (names_under_sound prefix objects) (Memᴰ.cases_cons (rw inside at m))
  ]
    where
      later :
          (has_prefix name prefix ≡ true) × ((body : Bytes) × (lookup name objects ≡ some body))
          → (has_prefix name prefix ≡ true)
            × ((body : Bytes) × (lookup name ((j, b) ∷ objects) ≡ some body))
      later (h, (body, found)) = elim (Bool-cases (j == name)) [
        | inl same ↦ (h, (b, lookup-cons j name b objects ∙ rw same))
        | inr differ ↦ (h, (body, lookup-cons j name b objects ∙ rw differ found))
      ]

      first :
          has_prefix j prefix ≡ true
          → (Memᴰ name (names_under prefix objects)
              → (has_prefix name prefix ≡ true)
                × ((body : Bytes) × (lookup name objects ≡ some body)))
          → (name ≡ j) ⊎ Memᴰ name (names_under prefix objects)
          → (has_prefix name prefix ≡ true)
            × ((body : Bytes) × (lookup name ((j, b) ∷ objects) ≡ some body))
      first inside below (inl same) =
          (rw same inside, (b, lookup-cons j name b objects ∙ rw (same, eq_refl)))
      first inside below (inr n) = later (below n)

  pub names_under_complete :
      (prefix : String) (objects : List (String × Bytes)) (name : String) {body : Bytes}
      → has_prefix name prefix ≡ true
      → lookup name objects ≡ some body
      → Memᴰ name (names_under prefix objects)
  unfolding names_under lookup
  names_under_complete prefix [] name h found = cc
  names_under_complete prefix ((j, b) ∷ objects) name h found = elim (Bool-cases (j == name)) [
    | inl same ↦
        let e = (eq_iff j name).0 same in
        rw (ap (λ (x : String). has_prefix x prefix) e ∙ h) (Memᴰ.head (sym e))
    | inr differ ↦
        let below = names_under_complete prefix objects name h (rw differ at found) in
        elim (Bool-cases (has_prefix j prefix)) [
          | inl inside ↦ rw inside (Memᴰ.tail below)
          | inr outside ↦ rw outside below
        ]
  ]

  pub list-names :
      (prefix : String) (st : Store Bytes) {names : List String}
      → (list prefix st).0 ≡ ok names
      → names ≡ names_under prefix st.objects
  unfolding list
  list-names prefix st h = ground arith

  -- A successful `Furthest`: what it found is said by an object under the key, and no state that
  -- is recorded for the key lies beyond it.
  pub record FarthestOf (key : String) (st : Store Bytes) (seen : Option State) : Type 0 where
    pub recorded :
        (s : State)
        → seen ≡ some s
        → (name : String) × (has_prefix name (key <> "/") ≡ true)
          × ((body : Bytes) × (lookup name st.objects ≡ some body))
          × (state_in key name ≡ some s)
    pub covers :
        (s : State) (body : Bytes)
        → is_state s ≡ true
        → lookup (object_name key s) st.objects ≡ some body
        → level s ≤ height seen

  names_FarthestOf :
      (key : String) (st : Store Bytes)
      → FarthestOf key st (furthest_of key none (names_under (key <> "/") st.objects))
  names_FarthestOf key st = record {
    recorded = λ s e. from_source s e (furthest_of_source key none names);
    covers = λ s body proper found.
        subst (λ x. height x ≤ height (furthest_of key none names))
          (state_in-object_name key s proper)
          (furthest_of_covers key none names (
            names_under_complete (key <> "/") st.objects (object_name key s)
              (object_name-under key s) found));
  }
    where
      names : List String
      names = names_under (key <> "/") st.objects

      from_source :
          (s : State)
          → furthest_of key none names ≡ some s
          → (furthest_of key none names ≡ none)
            ⊎ ((name : String) × Memᴰ name names × (furthest_of key none names ≡ state_in key name))
          → (name : String) × (has_prefix name (key <> "/") ≡ true)
            × ((body : Bytes) × (lookup name st.objects ≡ some body))
            × (state_in key name ≡ some s)
      from_source s e (inl nothing) = cc
      from_source s e (inr (name, m, says)) =
          let (inside, found) = names_under_sound (key <> "/") st.objects m in
          (name, inside, found, sym says ∙ e)

  -- Where `Furthest` answers, the state that it found is said by an object under the key, and no
  -- state that is recorded for the key lies beyond it.
  pub furthest-FarthestOf :
      (key : String) (st : Store Bytes) (seen : Option State)
      → (furthest key st).0 ≡ ok seen
      → FarthestOf key st seen
  unfolding furthest
  furthest-FarthestOf key st seen h = elim (Result-cases (list (key <> "/") st).0) [
    | inr (e, bad) ↦ cc (rw bad at h)
    | inl (names, got) ↦
        subst (FarthestOf key st)
          (ap (λ ns. furthest_of key none ns) (sym (list-names (key <> "/") st got))
            ∙ ok-injective (rw got at h))
          (names_FarthestOf key st)
  ]

  pub furthest-objects :
      (key : String) (st : Store Bytes) → (furthest key st).1.objects ≡ st.objects
  unfolding furthest
  furthest-objects key st = list-objects (key <> "/") st
