-- ===== src/Corpus/Load/Enforced.antt =====
-- internal/corpus/yaml.go: what LoadControls and LoadMapping leave of the index, where they succeed.
use mathlib.Core.List.{[]}
use ai_k8s.Prelude.{
  ◌≡◌, ◌≢◌, refl, ◌∙◌, subst, inl, inr, ℕ, suc, String, true, false, none, List, ok, All, ◌∷◌,
  Bool-cases, Option-cases, Result-cases, is_empty, ok-injective,
}
use ai_k8s.Text.{has_prefix}
use ai_k8s.Scc.{blank}
use ai_k8s.Corpus.Index.{Index, add}
use ai_k8s.Corpus.Kinds.{parse_id-control_kind}
use ai_k8s.Corpus.Load.Files.{Control, Files, decode_strict}
use ai_k8s.Corpus.Load.Yaml.{
  partial_name, control_problem, control_entry, add_controls, load_controls,
}
use ai_k8s.Corpus.Load.Keeps.{Holds, Keeps, unchanged, Keeps-trans, lookup_entry_of_add, add-Keeps}

partial_name-none :
    (rs : List String) → partial_name rs ≡ none → All (λ r. has_prefix r "//" ≡ true) rs
unfolding partial_name
partial_name-none [] h = tt
partial_name-none (r ∷ rs) h = elim (Bool-cases (has_prefix r "//")) [
  | inl full ↦ (full, partial_name-none rs (rw full at h))
  | inr short ↦ cc (rw short at h)
]

not_nil : (rs : List String) → is_empty rs ≡ false → rs ≢ []
not_nil rs h e = cc (rw e at h)

-- A control that passes the checks names full resources.
control_problem-none :
    (path : String) (i : ℕ) (c : Control)
    → control_problem path i c ≡ none
    → (c.applies_to ≢ []) × All (λ r. has_prefix r "//" ≡ true) c.applies_to
unfolding control_problem
control_problem-none path i c h = elim (Bool-cases (blank c.slug)) [
  | inl a ↦ cc (rw (a, control_problem) at h)
  | inr a ↦ elim (Bool-cases (blank c.statement)) [
    | inl b ↦ cc (rw (a, b, control_problem) at h)
    | inr b ↦ elim (Bool-cases (blank c.proof)) [
      | inl d ↦ cc (rw (a, b, d, control_problem) at h)
      | inr d ↦ elim (Bool-cases (is_empty c.applies_to)) [
        | inl e ↦ cc (rw (a, b, d, e, control_problem) at h)
        | inr e ↦ elim (Option-cases (partial_name c.applies_to)) [
          | inl full ↦ (not_nil c.applies_to e, partial_name-none c.applies_to full)
          | inr (r, short) ↦ cc (rw (a, b, d, e, short, control_problem) at h)
        ]
      ]
    ]
  ]
]

add_controls-Keeps :
    (path : String) (i : ℕ) (cs : List Control) (idx idx' : Index)
    → add_controls path i cs idx ≡ ok idx'
    → Keeps idx idx' × All (λ c. Holds idx' (control_entry c)) cs
unfolding add_controls control_entry
add_controls-Keeps path i [] idx idx' h = (subst (Keeps idx) (ok-injective h) (unchanged idx), tt)
add_controls-Keeps path i (c ∷ cs) idx idx' h = elim (Option-cases (control_problem path i c)) [
  | inr (problem, found) ↦ cc (rw (found, add_controls) at h)
  | inl sound ↦ elim (Result-cases (add idx (control_entry c))) [
    | inr (why, bad) ↦ cc (rw (sound, bad, add_controls) at h)
    | inl (grown, added) ↦
        let e = control_entry c in
        let (later, held) =
          add_controls-Keeps path (suc i) cs grown idx' (rw (sound, added, add_controls) at h) in
        let (k, parsed, there) = lookup_entry_of_add idx e grown added in
        (
          Keeps-trans
              (add-Keeps idx e grown added (λ j said.
                let (some_named, full) = control_problem-none path i c sound in
                inl (parse_id-control_kind j c.slug said, some_named, full)))
              later,
          (later.kept e.id e (there ∙ rw (parse_id-control_kind k c.slug parsed) refl), held),
        )
  ]
]

-- Where `LoadControls` succeeds, the index holds an entry for each control, and all that it held before.
pub load_controls-Keeps :
    (files : Files) (idx : Index) (path : String) (idx' : Index)
    → load_controls files idx path ≡ ok idx'
    → Keeps idx idx'
      × ((controls : List Control)
          → decode_strict files files.controls path ≡ ok controls
          → All (λ c. Holds idx' (control_entry c)) controls)
unfolding load_controls
load_controls-Keeps files idx path idx' h =
    elim (Result-cases (decode_strict files files.controls path)) [
      | inr (why, bad) ↦ cc (rw (bad, load_controls) at h)
      | inl (controls, decoded) ↦ elim (Bool-cases (is_empty controls)) [
        | inl nothing ↦ cc (rw (decoded, nothing, load_controls) at h)
        | inr full ↦
            let (keeps, held) =
              add_controls-Keeps path 0 controls idx idx'
                (rw (decoded, full, load_controls) at h) in
            (
              keeps,
              λ document said.
                  subst (All (λ c. Holds idx' (control_entry c)))
                    (ok-injective (cc (decoded, said))) held,
            )
      ]
    ]
