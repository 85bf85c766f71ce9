-- ===== src/Corpus/Load/Checkov.antt =====
-- internal/corpus/checkov.go: the entries of the checkov baseline.
use mathlib.Core.List.{[]}
use ai_k8s.Prelude.{◌<>◌, String, List, ◌∷◌, if◌then◌else◌, is_empty, Result, ok, err, failed, wrap}
use ai_k8s.Scc.{blank}
use ai_k8s.Corpus.Index.{checkov, checkov_id, Entry, Index, add}
use ai_k8s.Corpus.Load.Files.{CheckovFinding, FailedCheck, Files}

-- The entry of one check on a resource; `Add` sets its kind.
unfoldable pub checkov_entry : String → String → String → Entry
checkov_entry file resource check = record {
  id = checkov_id check resource;
  kind = checkov;
  summary =
      check <> (" is accepted against " <> (resource <> ", recorded in the checkov baseline."));
  source = ".checkov.baseline, for " <> file;
  applies_to = [];
}

-- The loop over the check ids of a finding.
unfoldable pub add_checks : String → String → String → List String → Index → Result Index
add_checks path file resource [] idx = ok idx
add_checks path file resource (check ∷ checks) idx =
    if blank check
    then err (failed ("checkov baseline " <> (path <> (" has an empty check id on " <> resource))))
    else elim (add idx (checkov_entry file resource check)) [
      | err why ↦ err why
      | ok grown ↦ add_checks path file resource checks grown
    ]

-- The loop over the findings of a file.
unfoldable pub add_findings : String → String → List CheckovFinding → Index → Result Index
add_findings path file [] idx = ok idx
add_findings path file (f ∷ fs) idx =
    if blank f.resource
    then err (
        failed (
          "checkov baseline "
          <> (path <> (" has a finding in " <> (file <> " naming no resource")))))
    else if is_empty f.check_ids
    then err (
        failed (
          "checkov baseline "
          <> (path <> (" has a finding on " <> (f.resource <> " carrying no check ids")))))
    else elim (add_checks path file f.resource f.check_ids idx) [
      | err why ↦ err why
      | ok grown ↦ add_findings path file fs grown
    ]

-- The loop over the files.
unfoldable pub add_failed : String → List FailedCheck → Index → Result Index
add_failed path [] idx = ok idx
add_failed path (fc ∷ fcs) idx =
    if blank fc.file
    then err (failed ("checkov baseline " <> (path <> " has a failed_checks entry naming no file")))
    else elim (add_findings path fc.file fc.findings idx) [
      | err why ↦ err why
      | ok grown ↦ add_failed path fcs grown
    ]

-- `LoadCheckov`. Where a loader fails, its caller drops the index.
unfoldable pub load_checkov : Files → Index → String → Result Index
load_checkov files idx path = elim (files.read_file path) [
  | err why ↦ err (wrap "read checkov baseline" why)
  | ok raw ↦ elim (files.baseline raw) [
    | err why ↦ err (wrap ("parse checkov baseline " <> path) why)
    | ok failed_checks ↦ add_failed path failed_checks idx
  ]
]
