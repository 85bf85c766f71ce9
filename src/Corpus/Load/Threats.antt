-- ===== src/Corpus/Load/Threats.antt =====
-- internal/corpus/markdown.go: the entries of the threat model.
use mathlib.Core.Option
use mathlib.Core.List.{[], map}
use ai_k8s.Prelude.{
  ◌<>◌, ℕ, suc, String, Bool, false, not, ◌||◌, Option, none, some, List, ◌∷◌, if◌then◌else◌, leb,
  ◌==◌, Eq-nat, Eq-string, Result, ok, err, failed, wrap, ℤ, pos, negsuc,
}
use ai_k8s.Text.{
  trim_space, trim_right, strip_suffix, strip_prefix, has_prefix, trim_prefix, equal_fold, split,
}
use ai_k8s.Text.Format.{decimal, atoi}
use ai_k8s.Corpus.Index.{threat, threat_id, Entry, Index, add}
use ai_k8s.Corpus.Load.Files.{Files, Scanned, scan}

-- `\s` of a regular expression.
abbrev is_re_space : ℕ → Bool
is_re_space n = n == 9 || n == 10 || n == 12 || n == 13 || n == 32

-- `splitRow`: what stands between the first bar and the last one, behind which only space stands.
unfoldable pub split_row : String → Option (List String)
unfolding strip_prefix strip_suffix trim_right split trim_space
split_row line = Option.bind (strip_prefix line "|") (λ rest.
    Option.map (λ inner. map trim_space (split inner b'|'))
      (strip_suffix (trim_right is_re_space rest) "|"))

-- A row of the findings table, by its cells.
pub record Row : Type 0 where
  pub number : ℕ
  pub boundary : String
  pub finding : String
  pub response : String
  pub status : String

abbrev row_at : Option ℤ → String → String → String → String → Option Row
row_at none boundary finding response status = none
row_at (some (negsuc n)) boundary finding response status = none
row_at (some (pos n)) boundary finding response status =
    if leb 1 n
    then some (record {
      number = n;
      boundary = boundary;
      finding = finding;
      response = response;
      status = status;
    })
    else none

-- The cells of a row that has at least five and begins with a finding number.
unfoldable pub row_of : List String → Option Row
unfolding atoi
row_of (number ∷ boundary ∷ finding ∷ response ∷ status ∷ more) =
    row_at (atoi number) boundary finding response status
row_of _ = none

unfoldable pub threat_entry : Row → Entry
threat_entry row = record {
  id = threat_id row.number;
  kind = threat;
  summary =
      row.finding <> (". Proposed response: " <> (row.response <> (". Status: " <> row.status)));
  source = "reference/threat-model.md#findings, boundary " <> row.boundary;
  applies_to = [];
}

-- The variables of the loop of `LoadThreatModel`.
pub record TableScan : Type 0 where
  pub in_findings : Bool
  pub loaded : ℕ
  pub index : Index

unfoldable pub take_row : String → TableScan → Row → Result TableScan
take_row path state row =
    if row.finding == "" || row.status == ""
    then err (
        failed (
          "threat model "
          <> (path <> (": finding " <> (decimal row.number <> " has no text or no status")))))
    else elim (add state.index (threat_entry row)) [
      | err why ↦ err why
      | ok grown ↦ ok (record state { loaded = suc state.loaded; index = grown })
    ]

abbrev pub take_cells : String → TableScan → Option Row → Result TableScan
unfolding take_row
take_cells path state none = ok state
take_cells path state (some row) = take_row path state row

-- One line of the threat model.
unfoldable pub threat_line : String → TableScan → String → Result TableScan
unfolding take_row has_prefix trim_space trim_prefix equal_fold split_row row_of
threat_line path state line =
    if has_prefix line "## "
    then ok
        (record state { in_findings = equal_fold (trim_space (trim_prefix line "## ")) "Findings" })
    else if not state.in_findings
    then ok state
    else take_cells path state (Option.bind (split_row line) row_of)

unfoldable pub threat_lines : String → List String → TableScan → Result TableScan
unfolding threat_line
threat_lines path [] state = ok state
threat_lines path (line ∷ lines) state = elim (threat_line path state line) [
  | err why ↦ err why
  | ok next ↦ threat_lines path lines next
]

-- What follows the loop of `LoadThreatModel`.
unfoldable pub threat_end : String → Scanned → TableScan → Result Index
threat_end path scanned state = elim (scanned.failure) [
  | some why ↦ err (wrap ("read threat model " <> path) why)
  | none ↦
      if state.loaded == 0
      then err
          (failed ("threat model " <> (path <> " has no findings table, or its shape changed")))
      else ok state.index
]

unfoldable pub threat_scanned : String → Index → Scanned → Result Index
unfolding threat_lines threat_end
threat_scanned path idx scanned =
    let start : TableScan = record { in_findings = false; loaded = 0; index = idx } in
    elim (threat_lines path scanned.lines start) [
      | err why ↦ err why
      | ok state ↦ threat_end path scanned state
    ]

-- `LoadThreatModel`
unfoldable pub load_threat_model : Files → Index → String → Result Index
unfolding threat_scanned scan
load_threat_model files idx path = elim (files.open_file path) [
  | err why ↦ err (wrap "read threat model" why)
  | ok stream ↦ threat_scanned path idx (scan 65536 stream)
]
