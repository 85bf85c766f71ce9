-- ===== src/Corpus/Load/Silent.antt =====
-- internal/corpus/markdown.go: the check at the end of LoadDecisions, for a file without decisions.
use mathlib.Core.List.{[]}
use ai_k8s.Prelude.{
  ◌≡◌, refl, inl, inr, String, false, none, List, ok, ◌∷◌, ◌++◌, All, Bool-cases, is_empty, ◌==◌,
  Eq-string, arith,
}
use ai_k8s.Text.{has_prefix, trim_space, trim_prefix}
use ai_k8s.Corpus.Index.{Index}
use ai_k8s.Corpus.Load.Files.{Stream, Files, scan}
use ai_k8s.Corpus.Load.Markdown.{
  decision_prefix, HeadingScan, flush, decision_line, decision_lines, decision_end,
  decision_scanned, load_decisions,
}

-- No decision was read, and no entry was added.
record IsSilent (idx : Index) (state : HeadingScan) : Type 0 where
  undecided : state.decision ≡ ""
  entries : state.index.entries ≡ idx.entries

module _ (idx : Index) where
  abbrev Passes : HeadingScan → Type 0
  Passes state = (next : HeadingScan) × (flush state ≡ ok next) × IsSilent idx next

  flush-silent : (state : HeadingScan) → IsSilent idx state → Passes state
  unfolding flush
  flush-silent state s = elim (Bool-cases (state.heading == "")) [
    | inl outside ↦ (state, rw outside refl, s)
    | inr inside ↦
        let skipped : HeadingScan = record state {
          heading = "";
          index = record state.index {
            skipped_decisions = state.index.skipped_decisions ++ (state.heading ∷ []);
          };
        } in
        (
          skipped,
          rw (inside, s.undecided) refl,
          record { undecided = s.undecided; entries = s.entries },
        )
  ]

  decision_line-IsSilent :
      (state : HeadingScan) (line : String)
      → has_prefix line decision_prefix ≡ false
      → IsSilent idx state
      → (next : HeadingScan) × (decision_line state line ≡ ok next) × IsSilent idx next
  unfolding decision_line
  decision_line-IsSilent state line plain s = elim (Bool-cases (has_prefix line "### ")) [
    | inl heading ↦
        let (next, flushed, s') = flush-silent state s in
        (
          record next { heading = trim_space (trim_prefix line "### ") },
          rw (heading, flushed) refl,
          record { undecided = s'.undecided; entries = s'.entries },
        )
    | inr other ↦ elim (Bool-cases (has_prefix line "## ")) [
      | inl section ↦
          let (next, flushed, s') = flush-silent state s in
          (next, rw (other, section, decision_line) flushed, s')
      | inr text ↦ (state, rw (other, text, decision_line) (ground (arith, plain)), s)
    ]
  ]

  decision_lines-IsSilent :
      (lines : List String) (state : HeadingScan)
      → All (λ line. has_prefix line decision_prefix ≡ false) lines
      → IsSilent idx state
      → (next : HeadingScan) × (decision_lines lines state ≡ ok next) × IsSilent idx next
  unfolding decision_lines
  decision_lines-IsSilent [] state plain s = (state, refl, s)
  decision_lines-IsSilent (line ∷ lines) state plain s =
      let (middle, step, s') = decision_line-IsSilent state line plain.0 s in
      let (next, ran, s'') = decision_lines-IsSilent lines middle plain.1 s' in
      (next, rw (decision_lines, step) ran, s'')

-- On an index that holds an entry already, `LoadDecisions` takes a file without a Decision line: it
-- succeeds and adds no entry, so that its check for such a file reports nothing.
pub load_decisions-silent :
    (files : Files) (idx : Index) (path : String) (stream : Stream)
    → files.open_file path ≡ ok stream
    → (scan 1048576 stream).failure ≡ none
    → All (λ line. has_prefix line decision_prefix ≡ false) (scan 1048576 stream).lines
    → is_empty idx.entries ≡ false
    → (idx' : Index) × (load_decisions files idx path ≡ ok idx') × (idx'.entries ≡ idx.entries)
unfolding load_decisions decision_scanned decision_end
load_decisions-silent files idx path stream read whole plain full =
    let scanned = scan 1048576 stream in
    let start : HeadingScan = record { heading = ""; decision = ""; index = idx } in
    let (state, ran, s) =
      decision_lines-IsSilent idx scanned.lines start plain
        (record { undecided = refl; entries = refl }) in
    let (next, flushed, s') = flush-silent idx state s in
    (
      next.index,
      rw
          (
            load_decisions, read, decision_scanned, ran, decision_end, whole, flushed, s'.entries,
            full,
          )
          refl,
      s'.entries,
    )
