-- ===== src/Corpus/Load/Tables.antt =====
-- internal/corpus/markdown.go: what LoadThreatModel leaves of the index, where it succeeds.
use mathlib.Core.Option
use mathlib.Core.List.{[]}
use ai_k8s.Prelude.{
  ◌≡◌, ◌≢◌, refl, subst, inl, inr, String, false, List, ok, ◌∷◌, ◌||◌, not, Bool-cases,
  Option-cases, Result-cases, ok-injective, ◌==◌, Eq-string, Eq-nat,
}
use ai_k8s.Text.{has_prefix}
use ai_k8s.Corpus.Index.{threat, control, Index, add}
use ai_k8s.Corpus.Kinds.{parse_id-threat_kind}
use ai_k8s.Corpus.Load.Files.{Files, Scanned, scan}
use ai_k8s.Corpus.Load.Threats.{
  split_row, Row, TableScan, threat_entry, take_row, threat_line, threat_lines, threat_end,
  threat_scanned, load_threat_model, row_of,
}
use ai_k8s.Corpus.Load.Keeps.{Keeps, unchanged, Keeps-trans, plain-Keeps}

threat-off : threat ≢ control
threat-off h = cc h

-- A step that ends in a state whose index is known.
table_after :
    {idx : Index} {middle next : TableScan}
    → ok middle ≡ ok next
    → Keeps idx middle.index
    → Keeps idx next.index
table_after {idx} h k = subst (λ (s : TableScan). Keeps idx s.index) (ok-injective h) k

module _ (path : String) where
  take_row-Keeps :
      (state : TableScan) (row : Row) (next : TableScan)
      → take_row path state row ≡ ok next
      → Keeps state.index next.index
  unfolding take_row
  take_row-Keeps state row next h = elim (Bool-cases (row.finding == "" || row.status == "")) [
    | inl empty ↦ cc (rw (empty, take_row) at h)
    | inr told ↦ elim (Result-cases (add state.index (threat_entry row))) [
      | inr (why, bad) ↦ cc (rw (told, bad, take_row) at h)
      | inl (grown, added) ↦ table_after (rw (told, added, take_row) at h) (
          plain-Keeps threat state.index (threat_entry row) grown threat-off
            (unfold threat_entry in refl)
            (λ j. unfold threat_entry in parse_id-threat_kind j row.number) added)
    ]
  ]

  threat_line-Keeps :
      (state : TableScan) (line : String) (next : TableScan)
      → threat_line path state line ≡ ok next
      → Keeps state.index next.index
  unfolding threat_line
  threat_line-Keeps state line next h = elim (Bool-cases (has_prefix line "## ")) [
    | inl heading ↦ table_after ((rw (heading, threat_line) at h)) (unchanged state.index)
    | inr other ↦ elim (Bool-cases (not state.in_findings)) [
      | inl outside ↦ table_after ((rw (other, outside, threat_line) at h)) (unchanged state.index)
      | inr inside ↦ elim (Option-cases (Option.bind (split_row line) row_of)) [
        | inl no_row ↦
            table_after ((rw (other, inside, no_row, threat_line) at h)) (unchanged state.index)
        | inr (row, read) ↦
            take_row-Keeps state row next (rw (other, inside, read, threat_line) at h)
      ]
    ]
  ]

  threat_lines-Keeps :
      (lines : List String) (state next : TableScan)
      → threat_lines path lines state ≡ ok next
      → Keeps state.index next.index
  unfolding threat_lines
  threat_lines-Keeps [] state next h = table_after (h) (unchanged state.index)
  threat_lines-Keeps (line ∷ lines) state next h =
      elim (Result-cases (threat_line path state line)) [
        | inr (why, bad) ↦ cc (rw (bad, threat_lines) at h)
        | inl (middle, step) ↦
            Keeps-trans (threat_line-Keeps state line middle step)
              (threat_lines-Keeps lines middle next (rw (step, threat_lines) at h))
      ]

  threat_end-index :
      (scanned : Scanned) (state : TableScan) (idx : Index)
      → threat_end path scanned state ≡ ok idx
      → state.index ≡ idx
  unfolding threat_end
  threat_end-index scanned state idx h = elim (Option-cases (scanned.failure)) [
    | inr (why, bad) ↦ cc (rw (bad, threat_end) at h)
    | inl whole ↦ elim (Bool-cases (state.loaded == 0)) [
      | inl nothing ↦ cc (rw (whole, nothing, threat_end) at h)
      | inr found ↦ ok-injective (rw (whole, found, threat_end) at h)
    ]
  ]

  threat_scanned-Keeps :
      (idx : Index) (scanned : Scanned) (idx' : Index)
      → threat_scanned path idx scanned ≡ ok idx'
      → Keeps idx idx'
  unfolding threat_scanned
  threat_scanned-Keeps idx scanned idx' h =
      let start : TableScan = record { in_findings = false; loaded = 0; index = idx } in
      elim (Result-cases (threat_lines path scanned.lines start)) [
        | inr (why, bad) ↦ cc (rw (bad, threat_scanned) at h)
        | inl (last, ran) ↦
            subst (Keeps idx) (threat_end-index scanned last idx' (rw (ran, threat_scanned) at h))
              (threat_lines-Keeps scanned.lines start last ran)
      ]

pub load_threat_model-Keeps :
    (files : Files) (idx : Index) (path : String) (idx' : Index)
    → load_threat_model files idx path ≡ ok idx'
    → Keeps idx idx'
unfolding load_threat_model
load_threat_model-Keeps files idx path idx' h = elim (Result-cases (files.open_file path)) [
  | inr (why, bad) ↦ cc (rw (bad, load_threat_model) at h)
  | inl (stream, read) ↦
      threat_scanned-Keeps path idx (scan 65536 stream) idx' (rw (read, load_threat_model) at h)
]
