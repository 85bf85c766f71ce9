-- ===== src/Corpus/Load/Headings.antt =====
-- internal/corpus/markdown.go: what LoadDecisions leaves of the index, where it succeeds.
use mathlib.Core.List.{[]}
use ai_k8s.Prelude.{
  ◌≡◌, ◌≢◌, refl, subst, inl, inr, String, List, ok, ◌∷◌, ◌&&◌, not, Bool-cases, Option-cases,
  Result-cases, is_empty, ok-injective, ◌==◌, Eq-string, Eq-nat,
}
use ai_k8s.Text.{has_prefix}
use ai_k8s.Corpus.Index.{decision, control, Index, add, lookup_entry}
use ai_k8s.Corpus.Kinds.{parse_id-decision_kind}
use ai_k8s.Corpus.Load.Files.{Files, Scanned, scan}
use ai_k8s.Corpus.Load.Markdown.{
  decision_prefix, HeadingScan, decision_entry, flush, decision_line, decision_lines, decision_end,
  decision_scanned, load_decisions, anchor,
}
use ai_k8s.Corpus.Load.Keeps.{Keeps, unchanged, Keeps-trans, plain-Keeps}

decision-off : decision ≢ control
decision-off h = cc h

-- A step that ends in a state whose index is known.
headings_after :
    {idx : Index} {middle next : HeadingScan}
    → ok middle ≡ ok next
    → Keeps idx middle.index
    → Keeps idx next.index
headings_after {idx} h k = subst (λ (s : HeadingScan). Keeps idx s.index) (ok-injective h) k

-- An index that differs in the skipped headings only.
skip-Keeps :
    (idx : Index) (headings : List String) → Keeps idx (record idx { skipped_decisions = headings })
unfolding lookup_entry
skip-Keeps idx headings = record {
  kept = λ id e h. h;
  built =
      λ b. record { formed = λ id e h. b.formed id e h; standing = λ id e h. b.standing id e h };
  mapping = refl;
}

flush-Keeps : (state next : HeadingScan) → flush state ≡ ok next → Keeps state.index next.index
unfolding flush
flush-Keeps state next h = elim (Bool-cases (state.heading == "")) [
  | inl outside ↦ headings_after ((rw (outside, flush) at h)) (unchanged state.index)
  | inr inside ↦ elim (Bool-cases (state.decision == "")) [
    | inl undecided ↦
        headings_after ((rw (inside, undecided, flush) at h)) (skip-Keeps state.index _)
    | inr decided ↦
        elim (Result-cases (add state.index (decision_entry state.heading state.decision))) [
          | inr (why, bad) ↦ cc (rw (inside, decided, bad, flush) at h)
          | inl (grown, added) ↦ headings_after ((rw (inside, decided, added, flush) at h)) (
              plain-Keeps decision state.index (decision_entry state.heading state.decision) grown
                decision-off (unfold decision_entry in refl)
                (λ j. unfold decision_entry in parse_id-decision_kind j (anchor state.heading))
                added)
        ]
  ]
]

decision_line-Keeps :
    (state : HeadingScan) (line : String) (next : HeadingScan)
    → decision_line state line ≡ ok next
    → Keeps state.index next.index
unfolding decision_line
decision_line-Keeps state line next h = elim (Bool-cases (has_prefix line "### ")) [
  | inl heading ↦ elim (Result-cases (flush state)) [
    | inr (why, bad) ↦ cc (rw (heading, bad, decision_line) at h)
    | inl (middle, flushed) ↦
        headings_after ((rw (heading, flushed, decision_line) at h))
          (flush-Keeps state middle flushed)
  ]
  | inr other ↦ elim (Bool-cases (has_prefix line "## ")) [
    | inl section ↦ flush-Keeps state next (rw (other, section, decision_line) at h)
    | inr plain ↦
        elim (Bool-cases
          (not (state.heading == "") && state.decision == "" && has_prefix line decision_prefix)) [
            | inl says ↦
                headings_after ((rw (other, plain, says, decision_line) at h))
                  (unchanged state.index)
            | inr silent ↦
                headings_after ((rw (other, plain, silent, decision_line) at h))
                  (unchanged state.index)
          ]
  ]
]

decision_lines-Keeps :
    (lines : List String) (state next : HeadingScan)
    → decision_lines lines state ≡ ok next
    → Keeps state.index next.index
unfolding decision_lines
decision_lines-Keeps [] state next h = headings_after (h) (unchanged state.index)
decision_lines-Keeps (line ∷ lines) state next h = elim (Result-cases (decision_line state line)) [
  | inr (why, bad) ↦ cc (rw (bad, decision_lines) at h)
  | inl (middle, step) ↦
      Keeps-trans (decision_line-Keeps state line middle step)
        (decision_lines-Keeps lines middle next (rw (step, decision_lines) at h))
]

decision_end-Keeps :
    (path : String) (scanned : Scanned) (state : HeadingScan) (idx : Index)
    → decision_end path scanned state ≡ ok idx
    → Keeps state.index idx
unfolding decision_end
decision_end-Keeps path scanned state idx h = elim (Option-cases (scanned.failure)) [
  | inr (why, bad) ↦ cc (rw (bad, decision_end) at h)
  | inl whole ↦ elim (Result-cases (flush state)) [
    | inr (why, bad) ↦ cc (rw (whole, bad, decision_end) at h)
    | inl (last, flushed) ↦ elim (Bool-cases (is_empty last.index.entries)) [
      | inl nothing ↦ cc (rw (whole, flushed, nothing, decision_end) at h)
      | inr found ↦
          subst (Keeps state.index) (ok-injective (rw (whole, flushed, found, decision_end) at h))
            (flush-Keeps state last flushed)
    ]
  ]
]

pub load_decisions-Keeps :
    (files : Files) (idx : Index) (path : String) (idx' : Index)
    → load_decisions files idx path ≡ ok idx'
    → Keeps idx idx'
unfolding load_decisions decision_scanned
load_decisions-Keeps files idx path idx' h = elim (Result-cases (files.open_file path)) [
  | inr (why, bad) ↦ cc (rw (bad, load_decisions) at h)
  | inl (stream, read) ↦
      let scanned = scan 1048576 stream in
      let start : HeadingScan = record { heading = ""; decision = ""; index = idx } in
      let h' : decision_scanned path idx scanned ≡ ok idx' = rw (read, load_decisions) at h in
      elim (Result-cases (decision_lines scanned.lines start)) [
        | inr (why, bad) ↦ cc (rw (bad, decision_scanned) at h')
        | inl (last, ran) ↦
            Keeps-trans (decision_lines-Keeps scanned.lines start last ran)
              (decision_end-Keeps path scanned last idx' (rw (ran, decision_scanned) at h'))
      ]
]
