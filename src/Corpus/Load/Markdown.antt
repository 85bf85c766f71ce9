-- ===== src/Corpus/Load/Markdown.antt =====
-- internal/corpus/markdown.go: the anchors of headings and the entries of the decisions.
use Prim.Native.Char.{Char, code}
use Prim.Native.String.{◌∷◌ as ◌∷ᶜ◌, [] as end_of_text}
use mathlib.Core.List.{[]}
use ai_k8s.Prelude.{
  ◌<>◌, ◌-◌, String, not, ◌&&◌, ◌||◌, none, some, List, ◌∷◌, ◌++◌, if◌then◌else◌, is_empty, leb,
  ◌==◌, Eq-nat, Eq-string, Result, ok, err, failed, wrap,
}
use ai_k8s.Text.{trim_space, has_prefix, trim_prefix}
use ai_k8s.Text.Format.{pick, quote}
use ai_k8s.Corpus.Index.{decision, decision_id, Entry, Index, add}
use ai_k8s.Corpus.Load.Files.{Files, Scanned, scan}

abbrev pub decision_prefix : String
decision_prefix = "Decision: "

abbrev pub lower_letters : List String
lower_letters =
    "a" ∷ "b" ∷ "c" ∷ "d" ∷ "e" ∷ "f" ∷ "g" ∷ "h" ∷ "i" ∷ "j" ∷ "k" ∷ "l" ∷ "m" ∷ "n" ∷ "o" ∷ "p"
    ∷ "q" ∷ "r" ∷ "s" ∷ "t" ∷ "u" ∷ "v" ∷ "w" ∷ "x" ∷ "y" ∷ "z" ∷ []

-- What the loop of `Anchor` writes for one character, which strings.ToLower changed before. Beyond
-- ASCII only U+0130 and U+212A have a lower case that the switch keeps.
unfoldable pub anchored_char : Char → String
unfolding pick
anchored_char c =
    let own = c ∷ᶜ end_of_text in
    let n = code c in
    if (leb b'a' n && leb n b'z') || (leb b'0' n && leb n b'9') || n == b'-' || n == b'_'
    then own
    else if leb b'A' n && leb n b'Z'
    then pick lower_letters (n - b'A')
    else if n == b' '
    then "-"
    else if n == 0x130
    then "i"
    else if n == 0x212a
    then "k"
    else ""

unfoldable pub anchor_from : String → String
unfolding anchored_char
anchor_from end_of_text = ""
anchor_from (c ∷ᶜ s) = anchored_char c <> anchor_from s

-- `Anchor`
unfoldable pub anchor : String → String
unfolding anchor_from trim_space
anchor heading = anchor_from (trim_space heading)

-- The variables of the loop of `LoadDecisions`.
pub record HeadingScan : Type 0 where
  pub heading : String
  pub decision : String
  pub index : Index

unfoldable pub decision_entry : String → String → Entry
decision_entry heading says = record {
  id = decision_id (anchor heading);
  kind = decision;
  summary = says;
  source = "decisions.md#" <> (anchor heading <> (", " <> quote heading));
  applies_to = [];
}

-- `flush`
unfoldable pub flush : HeadingScan → Result HeadingScan
flush state =
    if state.heading == ""
    then ok state
    else if state.decision == ""
    then ok (record state {
      heading = "";
      index = record state.index {
        skipped_decisions = state.index.skipped_decisions ++ (state.heading ∷ []);
      };
    })
    else elim (add state.index (decision_entry state.heading state.decision)) [
      | err why ↦ err why
      | ok grown ↦ ok (record { heading = ""; decision = ""; index = grown })
    ]

-- One line of the decisions.
unfoldable pub decision_line : HeadingScan → String → Result HeadingScan
unfolding flush has_prefix trim_space trim_prefix
decision_line state line =
    if has_prefix line "### "
    then elim (flush state) [
      | err why ↦ err why
      | ok next ↦ ok (record next { heading = trim_space (trim_prefix line "### ") })
    ]
    else if has_prefix line "## "
    then flush state
    else if not (state.heading == "") && state.decision == "" && has_prefix line decision_prefix
    then ok (record state { decision = trim_space (trim_prefix line decision_prefix) })
    else ok state

unfoldable pub decision_lines : List String → HeadingScan → Result HeadingScan
unfolding decision_line
decision_lines [] state = ok state
decision_lines (line ∷ lines) state = elim (decision_line state line) [
  | err why ↦ err why
  | ok next ↦ decision_lines lines next
]

-- What follows the loop of `LoadDecisions`.
unfoldable pub decision_end : String → Scanned → HeadingScan → Result Index
unfolding flush
decision_end path scanned state = elim (scanned.failure) [
  | some why ↦ err (wrap ("read decisions " <> path) why)
  | none ↦ elim (flush state) [
    | err why ↦ err why
    | ok last ↦
        if is_empty last.index.entries
        then err
            (failed ("decisions " <> (path <> " carries no Decision line, or its shape changed")))
        else ok last.index
  ]
]

unfoldable pub decision_scanned : String → Index → Scanned → Result Index
unfolding decision_lines decision_end
decision_scanned path idx scanned =
    let start : HeadingScan = record { heading = ""; decision = ""; index = idx } in
    elim (decision_lines scanned.lines start) [
      | err why ↦ err why
      | ok state ↦ decision_end path scanned state
    ]

-- `LoadDecisions`
unfoldable pub load_decisions : Files → Index → String → Result Index
unfolding decision_scanned scan
load_decisions files idx path = elim (files.open_file path) [
  | err why ↦ err (wrap "read decisions" why)
  | ok stream ↦ decision_scanned path idx (scan 1048576 stream)
]
