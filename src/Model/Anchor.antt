-- ===== src/Model/Anchor.antt =====
-- What `anchored` (internal/model/settle.go) means: a cited control applies to a resource that the
-- finding names.
use mathlib.Core.List.{[], Memᴰ}
use mathlib.Core.List.Memᴰ
use ai_k8s.Prelude.{
  ◌≡◌, refl, ◌↔◌, ◌⊎◌, inl, inr, String, List, ◌∷◌, Bool, true, ◌||◌, some, arith, Option-cases,
}
use ai_k8s.Text.{has_prefix}
use ai_k8s.Scc.{Finding}
use ai_k8s.Corpus.Index.{Entry, Index, lookup_entry}
use ai_k8s.Verdict.Record.{Citation}
use ai_k8s.Model.Resources.{any_prefix, applies, applies_to, anchored_from, anchored, resources_of}

||-split : (a b : Bool) → (a || b) ≡ true → (a ≡ true) ⊎ (b ≡ true)
||-split a b h = ground arith

any_prefix_sound :
    (prefix : String) (names : List String)
    → any_prefix prefix names ≡ true
    → (n : String) × Memᴰ n names × (has_prefix n prefix ≡ true)
unfolding any_prefix
any_prefix_sound prefix [] h = cc
any_prefix_sound prefix (n ∷ names) h = elim (||-split _ _ h) [
  | inl here ↦ (n, Memᴰ.head refl, here)
  | inr later ↦ let (m, at, holds) = any_prefix_sound prefix names later in (m, Memᴰ.tail at, holds)
]

any_prefix_complete :
    (prefix : String) (names : List String) {n : String}
    → Memᴰ n names
    → has_prefix n prefix ≡ true
    → any_prefix prefix names ≡ true
unfolding any_prefix
any_prefix_complete prefix [] m h = elim m [ ]
any_prefix_complete prefix (n ∷ names) (Memᴰ.head same) h = rw (← same, h)
any_prefix_complete prefix (n ∷ names) (Memᴰ.tail m) h =
    let later = any_prefix_complete prefix names m h in ground arith

abbrev Applies : List String → List String → Type 0
Applies prefixes names =
    (prefix : String) × Memᴰ prefix prefixes
    × ((n : String) × Memᴰ n names × (has_prefix n prefix ≡ true))

applies_sound :
    (prefixes names : List String) → applies prefixes names ≡ true → Applies prefixes names
unfolding applies
applies_sound [] names h = cc
applies_sound (prefix ∷ prefixes) names h = elim (||-split _ _ h) [
  | inl here ↦ (prefix, Memᴰ.head refl, any_prefix_sound prefix names here)
  | inr later ↦ let (p, at, holds) = applies_sound prefixes names later in (p, Memᴰ.tail at, holds)
]

applies_complete :
    (prefixes names : List String) {prefix n : String}
    → Memᴰ prefix prefixes
    → Memᴰ n names
    → has_prefix n prefix ≡ true
    → applies prefixes names ≡ true
unfolding applies
applies_complete [] names m k h = elim m [ ]
applies_complete (p ∷ prefixes) names (Memᴰ.head same) k h =
    let here = any_prefix_complete _ names k h in rw (← same, here)
applies_complete (p ∷ prefixes) names (Memᴰ.tail m) k h =
    let later = applies_complete prefixes names m k h in ground arith

-- A citation names an entry of the index, one of whose resource prefixes begins one of the names.
pub record Anchors (cites : List Citation) (idx : Index) (names : List String) : Type 0 where
  pub citation : Citation
  pub cited : Memᴰ citation cites
  pub entry : Entry
  pub found : lookup_entry idx citation.id ≡ some entry
  pub prefix : String
  pub listed : Memᴰ prefix entry.applies_to
  pub name : String
  pub named : Memᴰ name names
  pub begins : has_prefix name prefix ≡ true

module _ (idx : Index) (names : List String) where
  later_Anchors :
      {c : Citation} {cites : List Citation}
      → Anchors cites idx names
      → Anchors (c ∷ cites) idx names
  later_Anchors a = record {
    citation = a.citation;
    cited = Memᴰ.tail a.cited;
    entry = a.entry;
    found = a.found;
    prefix = a.prefix;
    listed = a.listed;
    name = a.name;
    named = a.named;
    begins = a.begins;
  }

  first_Anchors :
      (c : Citation) (cites : List Citation)
      → applies (applies_to (lookup_entry idx c.id)) names ≡ true
      → Anchors (c ∷ cites) idx names
  first_Anchors c cites h = elim (Option-cases (lookup_entry idx c.id)) [
    | inl missing ↦ absurd (Memᴰ.not-nil (applies_sound [] names (rw missing at h)).1)
    | inr (e, found) ↦
        let (p, at, (n, named, begins)) = applies_sound e.applies_to names (rw found at h) in
        record {
          citation = c;
          cited = Memᴰ.head refl;
          entry = e;
          found = found;
          prefix = p;
          listed = at;
          name = n;
          named = named;
          begins = begins;
        }
  ]

  anchored_from_sound :
      (cites : List Citation) → anchored_from cites idx names ≡ true → Anchors cites idx names
  unfolding anchored_from
  anchored_from_sound [] h = cc
  anchored_from_sound (c ∷ cites) h = elim (||-split _ _ h) [
    | inl here ↦ first_Anchors c cites here
    | inr later ↦ later_Anchors (anchored_from_sound cites later)
  ]

  anchored_from_complete :
      (cites : List Citation) {c : Citation} {e : Entry} {prefix n : String}
      → Memᴰ c cites
      → lookup_entry idx c.id ≡ some e
      → Memᴰ prefix e.applies_to
      → Memᴰ n names
      → has_prefix n prefix ≡ true
      → anchored_from cites idx names ≡ true
  unfolding anchored_from
  anchored_from_complete [] m found p k h = elim m [ ]
  anchored_from_complete (c ∷ cites) (Memᴰ.head same) found p k h =
      let here = applies_complete _ names p k h in rw (← same, found, here)
  anchored_from_complete (c ∷ cites) (Memᴰ.tail m) found p k h =
      let later = anchored_from_complete cites m found p k h in ground arith

-- `anchored` holds exactly when a citation is of an entry that applies to the resource that the
-- finding is filed against, or to one that it lists as affected.
pub anchored_iff :
    (cites : List Citation) (idx : Index) (f : Finding)
    → (anchored cites idx f ≡ true) ↔ Anchors cites idx (resources_of f)
unfolding anchored
anchored_iff cites idx f = (
  λ h. anchored_from_sound idx _ cites h,
  λ a. anchored_from_complete idx _ cites a.cited a.found a.listed a.named a.begins,
)
