-- ===== src/Corpus/Load/Files.antt =====
-- What the loaders of internal/corpus read: files by their paths, lines, and decoded documents. The
-- disk and the decoders of JSON and YAML are parameters.
use Prim.Native.String.{len}
use mathlib.Core.List.{[]}
use ai_k8s.Prelude.{
  ◌<>◌, ℕ, String, Option, some, List, ◌∷◌, if◌then◌else◌, ltb, ◌==◌, Eq-string, Result, ok, err,
  Error, failed, wrap,
}
use ai_k8s.Text.{split, trim_suffix}

-- An open file: the text that reading it gives, and the error that ends it before its end.
pub record Stream : Type 0 where
  pub text : String
  pub broken : Option Error

-- The parts of `checkovBaseline`.
pub record CheckovFinding : Type 0 where
  pub resource : String
  pub check_ids : List String

pub record FailedCheck : Type 0 where
  pub file : String
  pub findings : List CheckovFinding

-- A control of `controlsFile`.
pub record Control : Type 0 where
  pub slug : String
  pub statement : String
  pub proof : String
  pub applies_to : List String

-- A pairing of `mappingFile`, its citations as texts.
pub record RawPairing : Type 0 where
  pub resource : String
  pub cite : List String
  pub why : String

-- os.ReadFile and os.Open, and the decoders of the documents. A Go map comes as the list of its keys
-- and values, in the order in which the loop over it happens to run.
pub record Files : Type 0 where
  pub read_file : String → Result String
  pub open_file : String → Result Stream
  pub baseline : String → Result (List FailedCheck)
  pub controls : Stream → Result (List Control)
  pub mapping : Stream → Result (List (String × List RawPairing))

-- `decodeStrict`
unfoldable pub decode_strict {ℓ} : {A : Type ℓ} → Files → (Stream → Result A) → String → Result A
decode_strict files decode path = elim (files.open_file path) [
  | err why ↦ err (wrap ("read " <> path) why)
  | ok stream ↦ elim (decode stream) [
    | err why ↦ err (wrap ("parse " <> path) why)
    | ok document ↦ ok document
  ]
]

-- What a bufio.Scanner gives: its lines, and the error that `Err` reports.
pub record Scanned : Type 0 where
  pub lines : List String
  pub failure : Option Error

abbrev before_line : String → Scanned → Scanned
before_line line rest = record {
  lines = trim_suffix line "\r" ∷ rest.lines;
  failure = rest.failure;
}

-- The lines of a text, cut at its newlines; an empty last one is none. One that does not fit into
-- `most` bytes ends the scan.
unfoldable pub scan_pieces : ℕ → Option Error → List String → Scanned
scan_pieces most broken [] = record { lines = []; failure = broken }
scan_pieces most broken (piece ∷ []) =
    if piece == ""
    then record { lines = []; failure = broken }
    else if ltb (len piece) most
    then before_line piece (record { lines = []; failure = broken })
    else record { lines = []; failure = some (failed "bufio.Scanner: token too long") }
scan_pieces most broken (piece ∷ next ∷ pieces) =
    let rest = scan_pieces most broken (next ∷ pieces) in
    if ltb (len piece) most
    then before_line piece rest
    else record { lines = []; failure = some (failed "bufio.Scanner: token too long") }

unfoldable pub scan : ℕ → Stream → Scanned
unfolding scan_pieces
scan most stream = scan_pieces most stream.broken (split stream.text b'\n')
