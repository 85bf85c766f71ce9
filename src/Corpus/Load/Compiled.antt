-- ===== src/Corpus/Load/Compiled.antt =====
-- What `Compile` and `Unmarshal` (internal/corpus/compile.go) return.
use mathlib.Core.List.{[]}
use ai_k8s.Prelude.{
  ◌≡◌, refl, sym, ap, ◌∙◌, subst, inl, inr, String, none, List, ok, ◌∷◌, All, Bool-cases,
  Option-cases, Result-cases, Result, is_empty, ok-injective, ◌↔◌, ◌==◌, Eq-string,
}
use ai_k8s.Corpus.Index.{EntryId, Index, new_index, lookup, lookup_entry}
use ai_k8s.Corpus.Mapping.{validate_index}
use ai_k8s.Corpus.Checked.{IsChecked, validate_index_iff}
use ai_k8s.Corpus.Load.Files.{FailedCheck, Control, RawPairing, Files, decode_strict}
use ai_k8s.Corpus.Load.Checkov.{load_checkov}
use ai_k8s.Corpus.Load.Markdown.{load_decisions}
use ai_k8s.Corpus.Load.Threats.{load_threat_model}
use ai_k8s.Corpus.Load.Yaml.{control_entry, load_controls, map_categories, load_mapping}
use ai_k8s.Corpus.Load.Compile.{
  Sources, LoadStep, steps_of, run_steps, validated, compile, unmarshal,
}
use ai_k8s.Corpus.Load.Keeps.{Holds, IsBuilt, new_index-IsBuilt, Retains, Keeps-trans, all_kept}
use ai_k8s.Corpus.Load.Baseline.{HoldsFindings, load_checkov-Keeps, failed_kept}
use ai_k8s.Corpus.Load.Tables.{load_threat_model-Keeps}
use ai_k8s.Corpus.Load.Headings.{load_decisions-Keeps}
use ai_k8s.Corpus.Load.Enforced.{load_controls-Keeps}

map_categories-entries :
    (mapping : List (String × List RawPairing)) (idx : Index)
    → (map_categories mapping idx).entries ≡ idx.entries
unfolding map_categories
map_categories-entries [] idx = refl
map_categories-entries ((category, pairings) ∷ rest) idx = map_categories-entries rest _

load_mapping-entries :
    (files : Files) (idx : Index) (path : String) (idx' : Index)
    → load_mapping files idx path ≡ ok idx'
    → idx'.entries ≡ idx.entries
unfolding load_mapping
load_mapping-entries files idx path idx' h =
    elim (Result-cases (decode_strict files files.mapping path)) [
      | inr (why, bad) ↦ cc (rw (bad, load_mapping) at h)
      | inl (mapping, decoded) ↦ elim (Bool-cases (is_empty mapping)) [
        | inl nothing ↦ cc (rw (decoded, nothing, load_mapping) at h)
        | inr full ↦
            ap (λ (i : Index). i.entries)
              (sym (ok-injective (rw (decoded, full, load_mapping) at h)))
            ∙ map_categories-entries mapping idx
      ]
    ]

same_entries :
    (idx idx' : Index)
    → idx'.entries ≡ idx.entries
    → (id : EntryId) → lookup_entry idx' id ≡ lookup_entry idx id
unfolding lookup_entry
same_entries idx idx' e id = ap (lookup id) e

same_entries-IsBuilt : (idx idx' : Index) → idx'.entries ≡ idx.entries → IsBuilt idx → IsBuilt idx'
same_entries-IsBuilt idx idx' e b = record {
  formed = λ id x h. b.formed id x (sym (same_entries idx idx' e id) ∙ h);
  standing = λ id x h. b.standing id x (sym (same_entries idx idx' e id) ∙ h);
}

same_entries-Retains : (idx idx' : Index) → idx'.entries ≡ idx.entries → Retains idx idx'
same_entries-Retains idx idx' e id x h = same_entries idx idx' e id ∙ h

run_steps-step :
    (step : LoadStep) (steps : List LoadStep) (idx idx' : Index)
    → run_steps (step ∷ steps) idx ≡ ok idx'
    → (middle : Index) × (step.load idx step.path ≡ ok middle) × (run_steps steps middle ≡ ok idx')
unfolding run_steps
run_steps-step step steps idx idx' h = elim (Bool-cases (step.path == "")) [
  | inl missing ↦ cc (rw (missing, run_steps) at h)
  | inr given ↦ elim (Result-cases (step.load idx step.path)) [
    | inr (why, bad) ↦ cc (rw (given, bad, run_steps) at h)
    | inl (middle, loaded) ↦ (middle, loaded, rw (given, loaded, run_steps) at h)
  ]
]

validated-ok :
    (idx idx' : Index) → validated idx ≡ ok idx' → (idx ≡ idx') × (validate_index idx ≡ none)
unfolding validated
validated-ok idx idx' h = elim (Option-cases (validate_index idx)) [
  | inl clean ↦ (ok-injective (rw (clean, validated) at h), clean)
  | inr (problem, found) ↦ cc (rw (found, validated) at h)
]

-- A compiled index: well-formed entries, of which the controls and no others name resources, a mapping
-- that resolves, and an entry for every check and every control of the sources.
pub record IsCompiled (files : Files) (s : Sources) (idx : Index) : Type 0 where
  pub built : IsBuilt idx
  pub checked : IsChecked idx
  pub baseline :
      (raw : String) (failed_checks : List FailedCheck)
      → files.read_file s.checkov_baseline ≡ ok raw
      → files.baseline raw ≡ ok failed_checks
      → All (HoldsFindings idx) failed_checks
  pub controls :
      (controls : List Control)
      → decode_strict files files.controls s.controls ≡ ok controls
      → All (λ c. Holds idx (control_entry c)) controls

compiled :
    (files : Files) (s : Sources) (i j k l m : Index)
    → load_checkov files new_index s.checkov_baseline ≡ ok i
    → load_threat_model files i s.threat_model ≡ ok j
    → load_decisions files j s.decisions ≡ ok k
    → load_controls files k s.controls ≡ ok l
    → load_mapping files l s.mapping ≡ ok m
    → validate_index m ≡ none
    → IsCompiled files s m
compiled files s i j k l m baseline threats decisions controls mapping clean =
    let (first, checks) = load_checkov-Keeps files new_index s.checkov_baseline i baseline in
    let second = load_threat_model-Keeps files i s.threat_model j threats in
    let third = load_decisions-Keeps files j s.decisions k decisions in
    let (fourth, held) = load_controls-Keeps files k s.controls l controls in
    let rest = Keeps-trans second (Keeps-trans third fourth) in
    let same = load_mapping-entries files l s.mapping m mapping in
    record {
      built = same_entries-IsBuilt l m same (rest.built (first.built new_index-IsBuilt));
      checked = (validate_index_iff m).0 clean;
      baseline = λ raw failed_checks read said.
          failed_kept l m (same_entries-Retains l m same) failed_checks
            (failed_kept i l rest.kept failed_checks (checks raw failed_checks read said));
      controls = λ document said.
          all_kept l m (same_entries-Retains l m same) document control_entry (held document said);
    }

run_steps-five :
    (a b c d e : LoadStep) (idx idx' : Index)
    → run_steps (a ∷ b ∷ c ∷ d ∷ e ∷ []) idx ≡ ok idx'
    → (i : Index) × (j : Index) × (k : Index) × (l : Index) × (a.load idx a.path ≡ ok i)
      × (b.load i b.path ≡ ok j)
      × (c.load j c.path ≡ ok k)
      × (d.load k d.path ≡ ok l)
      × (e.load l e.path ≡ ok idx')
run_steps-five a b c d e idx idx' h =
    let (i, first, h₁) = run_steps-step a (b ∷ c ∷ d ∷ e ∷ []) idx idx' h in
    let (j, second, h₂) = run_steps-step b (c ∷ d ∷ e ∷ []) i idx' h₁ in
    let (k, third, h₃) = run_steps-step c (d ∷ e ∷ []) j idx' h₂ in
    let (l, fourth, h₄) = run_steps-step d (e ∷ []) k idx' h₃ in
    let (m, fifth, h₅) = run_steps-step e [] l idx' h₄ in
    let same : m ≡ idx' = ok-injective (unfold run_steps in h₅) in
    (i, j, k, l, first, second, third, fourth, rw (← same) fifth)

-- Where `Compile` succeeds, the index is well-formed; of its entries the controls, and no others, name
-- the resources that they apply to, as full names; its mapping resolves; and it lacks no check of the
-- baseline and no control.
pub compile-IsCompiled :
    (files : Files) (s : Sources) (idx : Index) → compile files s ≡ ok idx → IsCompiled files s idx
unfolding compile
compile-IsCompiled files s idx h = elim (Result-cases (run_steps (steps_of files s) new_index)) [
  | inr (why, bad) ↦ cc (rw (bad, compile) at h)
  | inl (last, ran) ↦
      let (same, clean) = validated-ok last idx (rw (ran, compile) at h) in
      subst (IsCompiled files s) same (loaded last ran clean)
]
  where
    loaded :
        (last : Index)
        → run_steps (steps_of files s) new_index ≡ ok last
        → validate_index last ≡ none
        → IsCompiled files s last
    loaded last ran clean =
        let (i, j, k, l, first, second, third, fourth, fifth) =
          run_steps-five
            (record {
              name = "checkov baseline";
              load = load_checkov files;
              path = s.checkov_baseline;
            })
            (record {
              name = "threat model";
              load = load_threat_model files;
              path = s.threat_model;
            })
            (record { name = "decisions"; load = load_decisions files; path = s.decisions })
            (record { name = "controls"; load = load_controls files; path = s.controls })
            (record { name = "mapping"; load = load_mapping files; path = s.mapping }) new_index
            last (unfold steps_of in ran) in
        compiled files s i j k l last first second third fourth fifth clean

-- `Unmarshal` returns an index exactly when its decoder gives that index and its mapping is justified
-- and resolves: the entries are not checked again.
pub unmarshal_iff :
    (decode : String → Result Index) (body : String) (idx : Index)
    → (unmarshal decode body ≡ ok idx) ↔ ((decode body ≡ ok idx) × IsChecked idx)
unfolding unmarshal validated
unmarshal_iff decode body idx = (forth, back)
  where
    forth : unmarshal decode body ≡ ok idx → (decode body ≡ ok idx) × IsChecked idx
    forth h = elim (Result-cases (decode body)) [
      | inr (why, bad) ↦ cc (rw (bad, unmarshal) at h)
      | inl (read, decoded) ↦
          let (same, clean) = validated-ok read idx (rw (decoded, unmarshal) at h) in
          (rw (← same) decoded, (validate_index_iff idx).0 (rw (← same) clean))
    ]

    back : (decode body ≡ ok idx) × IsChecked idx → unmarshal decode body ≡ ok idx
    back h =
        let clean = (validate_index_iff idx).1 h.1 in rw (h.0, unmarshal, clean, validated) refl

-- Where the JSON of a compiled index decodes to that index, the worker loads from it the index that
-- `corpusc` compiled.
pub unmarshal-compile :
    (files : Files) (s : Sources) (idx : Index) (marshal : Index → String)
    (decode : String → Result Index)
    → compile files s ≡ ok idx
    → decode (marshal idx) ≡ ok idx
    → unmarshal decode (marshal idx) ≡ ok idx
unmarshal-compile files s idx marshal decode h decoded =
    (unmarshal_iff decode (marshal idx) idx).1 (decoded, (compile-IsCompiled files s idx h).checked)
