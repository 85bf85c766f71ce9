-- ===== src/Corpus/Load/Yaml.antt =====
-- internal/corpus/yaml.go: the controls and the mapping.
use mathlib.Core.List.{[]}
use ai_k8s.Prelude.{
  ◌<>◌, ℕ, suc, String, Option, none, some, List, ◌∷◌, if◌then◌else◌, is_empty, Result, ok, err,
  failed,
}
use ai_k8s.Text.{has_prefix}
use ai_k8s.Text.Format.{decimal, quote}
use ai_k8s.Scc.{blank}
use ai_k8s.Corpus.Index.{control, control_id, EntryId, Entry, Pairing, Index, insert, add}
use ai_k8s.Corpus.Load.Files.{Control, RawPairing, Files, decode_strict}

-- The first of a control's resources that is no full resource name.
unfoldable pub partial_name : List String → Option String
unfolding has_prefix
partial_name [] = none
partial_name (r ∷ rs) = if has_prefix r "//" then partial_name rs else some r

abbrev partial_problem : String → String → Option String → Option String
partial_problem path slug none = none
partial_problem path slug (some r) = some (
    path
    <> (": control "
        <> (quote slug <> (" applies to " <> (quote r <> ", which is not a full resource name")))))

-- The checks of the i-th control, in their order; `none` lets it through.
unfoldable pub control_problem : String → ℕ → Control → Option String
unfolding partial_name
control_problem path i c =
    if blank c.slug
    then some (path <> (": control " <> (decimal i <> " has no slug")))
    else if blank c.statement
    then some (path <> (": control " <> (quote c.slug <> " asserts nothing")))
    else if blank c.proof
    then some (path <> (": control " <> (quote c.slug <> " cites no proof")))
    else if is_empty c.applies_to
    then some (path <> (": control " <> (quote c.slug <> " names no resource it applies to")))
    else partial_problem path c.slug (partial_name c.applies_to)

unfoldable pub control_entry : Control → Entry
control_entry c = record {
  id = control_id c.slug;
  kind = control;
  summary = c.statement;
  source = c.proof;
  applies_to = c.applies_to;
}

-- The loop over the controls, from the i-th on.
unfoldable pub add_controls : String → ℕ → List Control → Index → Result Index
unfolding control_problem
add_controls path i [] idx = ok idx
add_controls path i (c ∷ cs) idx = elim (control_problem path i c) [
  | some problem ↦ err (failed problem)
  | none ↦ elim (add idx (control_entry c)) [
    | err why ↦ err why
    | ok grown ↦ add_controls path (suc i) cs grown
  ]
]

-- `LoadControls`
unfoldable pub load_controls : Files → Index → String → Result Index
unfolding decode_strict add_controls
load_controls files idx path = elim (decode_strict files files.controls path) [
  | err why ↦ err why
  | ok controls ↦
      if is_empty controls
      then err (failed (path <> " declares no controls"))
      else add_controls path 0 controls idx
]

unfoldable pub cites_of : List String → List EntryId
cites_of [] = []
cites_of (c ∷ cs) = c ∷ cites_of cs

unfoldable pub pairings_of : List RawPairing → List Pairing
unfolding cites_of
pairings_of [] = []
pairings_of (p ∷ ps) =
    record { resource = p.resource; cite = cites_of p.cite; why = p.why } ∷ pairings_of ps

-- The loop over the categories.
unfoldable pub map_categories : List (String × List RawPairing) → Index → Index
unfolding pairings_of insert
map_categories [] idx = idx
map_categories ((category, pairings) ∷ rest) idx =
    map_categories rest
      (record idx { mapping = insert category (pairings_of pairings) idx.mapping })

-- `LoadMapping`
unfoldable pub load_mapping : Files → Index → String → Result Index
unfolding decode_strict map_categories
load_mapping files idx path = elim (decode_strict files files.mapping path) [
  | err why ↦ err why
  | ok mapping ↦
      if is_empty mapping
      then err (failed (path <> " maps no categories"))
      else ok (map_categories mapping idx)
]
