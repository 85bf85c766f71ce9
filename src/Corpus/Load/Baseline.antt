-- ===== src/Corpus/Load/Baseline.antt =====
-- internal/corpus/checkov.go: what LoadCheckov leaves of the index, where it succeeds.
use mathlib.Core.List.{[]}
use ai_k8s.Prelude.{
  ◌≡◌, ◌≢◌, refl, ◌∙◌, subst, inl, inr, String, List, ok, All, ◌∷◌, Bool-cases, Result-cases,
  is_empty, ok-injective,
}
use ai_k8s.Scc.{blank}
use ai_k8s.Corpus.Index.{checkov, control, Index, add}
use ai_k8s.Corpus.Kinds.{parse_id-checkov_kind}
use ai_k8s.Corpus.Load.Files.{CheckovFinding, FailedCheck, Files}
use ai_k8s.Corpus.Load.Checkov.{checkov_entry, add_checks, add_findings, add_failed, load_checkov}
use ai_k8s.Corpus.Load.Keeps.{
  Holds, Keeps, Retains, unchanged, Keeps-trans, lookup_entry_of_add, plain-Keeps, all_kept,
}

checkov-off : checkov ≢ control
checkov-off h = cc h

-- Each check of a finding is held, on its resource.
abbrev pub HoldsChecks : Index → String → CheckovFinding → Type 0
HoldsChecks idx file f = All (λ check. Holds idx (checkov_entry file f.resource check)) f.check_ids

abbrev pub HoldsFindings : Index → FailedCheck → Type 0
HoldsFindings idx fc = All (HoldsChecks idx fc.file) fc.findings

findings_kept :
    (idx idx' : Index) (k : Retains idx idx') (file : String) (fs : List CheckovFinding)
    → All (HoldsChecks idx file) fs
    → All (HoldsChecks idx' file) fs
findings_kept idx idx' k file [] h = tt
findings_kept idx idx' k file (f ∷ fs) h = (
  all_kept idx idx' k f.check_ids (checkov_entry file f.resource) h.0,
  findings_kept idx idx' k file fs h.1,
)

module _ (path : String) where
  add_checks-Keeps :
      (file resource : String) (checks : List String) (idx idx' : Index)
      → add_checks path file resource checks idx ≡ ok idx'
      → Keeps idx idx' × All (λ check. Holds idx' (checkov_entry file resource check)) checks
  unfolding add_checks checkov_entry
  add_checks-Keeps file resource [] idx idx' h =
      (subst (Keeps idx) (ok-injective h) (unchanged idx), tt)
  add_checks-Keeps file resource (check ∷ checks) idx idx' h = elim (Bool-cases (blank check)) [
    | inl empty ↦ cc (rw (empty, add_checks) at h)
    | inr named ↦ elim (Result-cases (add idx (checkov_entry file resource check))) [
      | inr (why, bad) ↦ cc (rw (named, bad, add_checks) at h)
      | inl (grown, added) ↦
          let e = checkov_entry file resource check in
          let (later, held) =
            add_checks-Keeps file resource checks grown idx' (rw (named, added, add_checks) at h) in
          let (k, parsed, there) = lookup_entry_of_add idx e grown added in
          (
            Keeps-trans
                (plain-Keeps checkov idx e grown checkov-off refl
                  (λ j. parse_id-checkov_kind j check resource) added)
                later,
            (
              later.kept e.id e (there ∙ rw (parse_id-checkov_kind k check resource parsed) refl),
              held,
            ),
          )
    ]
  ]

  add_findings-Keeps :
      (file : String) (findings : List CheckovFinding) (idx idx' : Index)
      → add_findings path file findings idx ≡ ok idx'
      → Keeps idx idx' × All (HoldsChecks idx' file) findings
  unfolding add_findings
  add_findings-Keeps file [] idx idx' h = (subst (Keeps idx) (ok-injective h) (unchanged idx), tt)
  add_findings-Keeps file (f ∷ fs) idx idx' h = elim (Bool-cases (blank f.resource)) [
    | inl empty ↦ cc (rw (empty, add_findings) at h)
    | inr named ↦ elim (Bool-cases (is_empty f.check_ids)) [
      | inl none_given ↦ cc (rw (named, none_given, add_findings) at h)
      | inr given ↦ elim (Result-cases (add_checks path file f.resource f.check_ids idx)) [
        | inr (why, bad) ↦ cc (rw (named, given, bad, add_findings) at h)
        | inl (grown, added) ↦
            let (now, here) = add_checks-Keeps file f.resource f.check_ids idx grown added in
            let (later, held) =
              add_findings-Keeps file fs grown idx' (rw (named, given, added, add_findings) at h) in
            (
              Keeps-trans now later,
              (
                all_kept grown idx' later.kept f.check_ids (checkov_entry file f.resource) here,
                held,
              ),
            )
      ]
    ]
  ]

  pub add_failed-Keeps :
      (failed_checks : List FailedCheck) (idx idx' : Index)
      → add_failed path failed_checks idx ≡ ok idx'
      → Keeps idx idx' × All (HoldsFindings idx') failed_checks
  unfolding add_failed
  add_failed-Keeps [] idx idx' h = (subst (Keeps idx) (ok-injective h) (unchanged idx), tt)
  add_failed-Keeps (fc ∷ fcs) idx idx' h = elim (Bool-cases (blank fc.file)) [
    | inl empty ↦ cc (rw (empty, add_failed) at h)
    | inr named ↦ elim (Result-cases (add_findings path fc.file fc.findings idx)) [
      | inr (why, bad) ↦ cc (rw (named, bad, add_failed) at h)
      | inl (grown, added) ↦
          let (now, here) = add_findings-Keeps fc.file fc.findings idx grown added in
          let (later, held) =
            add_failed-Keeps fcs grown idx' (rw (named, added, add_failed) at h) in
          (
            Keeps-trans now later,
            (findings_kept grown idx' later.kept fc.file fc.findings here, held),
          )
    ]
  ]

pub failed_kept :
    (idx idx' : Index) (k : Retains idx idx') (fcs : List FailedCheck)
    → All (HoldsFindings idx) fcs
    → All (HoldsFindings idx') fcs
failed_kept idx idx' k [] h = tt
failed_kept idx idx' k (fc ∷ fcs) h =
    (findings_kept idx idx' k fc.file fc.findings h.0, failed_kept idx idx' k fcs h.1)

-- Where `LoadCheckov` succeeds, the index holds an entry for each check of each finding of the
-- baseline, and all that it held before.
pub load_checkov-Keeps :
    (files : Files) (idx : Index) (path : String) (idx' : Index)
    → load_checkov files idx path ≡ ok idx'
    → Keeps idx idx'
      × ((raw : String) (failed_checks : List FailedCheck)
          → files.read_file path ≡ ok raw
          → files.baseline raw ≡ ok failed_checks
          → All (HoldsFindings idx') failed_checks)
unfolding load_checkov
load_checkov-Keeps files idx path idx' h = elim (Result-cases (files.read_file path)) [
  | inr (why, bad) ↦ cc (rw (bad, load_checkov) at h)
  | inl (raw, read) ↦ elim (Result-cases (files.baseline raw)) [
    | inr (why, bad) ↦ cc (rw (read, bad, load_checkov) at h)
    | inl (failed_checks, decoded) ↦
        let (keeps, held) =
          add_failed-Keeps path failed_checks idx idx' (rw (read, decoded, load_checkov) at h) in
        (
          keeps,
          λ raw' document same said.
              let one : raw ≡ raw' = ok-injective (cc (read, same)) in
              let two : failed_checks ≡ document = ok-injective (cc (decoded, said, one)) in
              subst (All (HoldsFindings idx')) two held,
        )
  ]
]
