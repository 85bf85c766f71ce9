-- ===== src/Eval/Cases.antt =====
-- internal/eval/case.go: a set of cases, how it is read and how it is checked.
use mathlib.Core.Option
use mathlib.Core.List.{[]}
use ai_k8s.Prelude.{
  ◌<>◌, ℕ, String, Bool, true, false, not, ◌&&◌, ◌||◌, Option, none, some, List, ◌∷◌, ◌++◌,
  if◌then◌else◌, is_empty, ◌==◌, Eq-string, Result, ok, err, failed, wrap, problem_if,
}
use ai_k8s.Text.{join}
use ai_k8s.Text.Format.{quote, hex}
use ai_k8s.Scc.{Json, Fields, end, field, blank}
use ai_k8s.Corpus.Index.{Index, lookup, lookup_entry}
use ai_k8s.Corpus.Mapping.{sort_texts}
use ai_k8s.Eval.Judge.{Case, contains_text}
use ai_k8s.Eval.Derive.{derive}

-- The keys of `Kinds` and of `Origins`.
abbrev pub kinds : List String
kinds =
    "no_coverage" ∷ "rules_control" ∷ "ambiguous" ∷ "missing_evidence" ∷ "abstain" ∷ "misleading"
    ∷ "near_miss" ∷ "contradiction" ∷ []

abbrev pub origins : List String
origins = "real" ∷ "derived" ∷ "synthetic" ∷ []

-- A case with the body that LoadSet builds.
pub record BuiltCase (Bytes : Type 0) : Type 0 where
  pub written : Case
  pub body : Bytes

-- `Set`, as its file has it and as LoadSet returns it.
pub record CaseFile : Type 0 where
  pub name : String
  pub sealed : Bool
  pub note : String
  pub cases : List Case

pub record CaseSet (Bytes : Type 0) : Type 0 where
  pub name : String
  pub sealed : Bool
  pub note : String
  pub cases : List (BuiltCase Bytes)
  pub digest : String

-- os.ReadFile, encoding/json and crypto/sha256, for a set.
pub record SetFiles (Bytes : Type 0) : Type 0 where
  pub read_file : String → Result String
  pub decode_set : String → Result CaseFile
  pub decode_library : String → Result (List (String × String))
  pub decode_finding : String → Result Fields
  pub decode_any : String → Result Json
  pub marshal_any : Json → Result String
  pub marshal_body : Json → Result Bytes
  pub sum_of_text : String → List ℕ

module _ {Bytes : Type 0} (files : SetFiles Bytes) where
  open files use {
    read_file, decode_set, decode_library, decode_finding, decode_any, marshal_any, marshal_body,
    sum_of_text,
  }

  -- `canonical`
  unfoldable pub canonical : String → String
  canonical raw = elim (decode_any raw) [
    | err why ↦ raw
    | ok v ↦ elim (marshal_any v) [ err why ↦ raw | ok out ↦ out ]
  ]

  -- The loop of `LoadSet` over the cases.
  unfoldable pub build_cases :
      String → List (String × String) → List Case → Result (List (BuiltCase Bytes))
  unfolding lookup derive
  build_cases findings_path library [] = ok []
  build_cases findings_path library (c ∷ cs) = elim (lookup c.finding library) [
    | none ↦ err (
        failed (
          "case "
          <> (quote c.name
              <> (" names finding "
                  <> (quote c.finding <> (", which is not in " <> findings_path))))))
    | some base ↦ elim (derive decode_finding marshal_body base c.set c.delete) [
      | err why ↦ err (wrap ("case " <> quote c.name) why)
      | ok body ↦ elim (build_cases findings_path library cs) [
        | err why ↦ err why
        | ok rest ↦ ok (record { written = c; body = body } ∷ rest)
      ]
    ]
  ]

  abbrev finding_names : List Case → List String
  finding_names [] = []
  finding_names (c ∷ cs) = c.finding ∷ finding_names cs

  -- What is hashed of the sorted findings: each once.
  unfoldable pub digest_input : List (String × String) → Option String → List String → String
  unfolding lookup canonical
  digest_input library last [] = ""
  digest_input library last (name ∷ names) =
      let rest = digest_input library (some name) names in
      let own = name <> (canonical (Option.get_or (lookup name library) "") <> rest) in
      elim last [ none ↦ own | some before ↦ if before == name then rest else own ]

  -- `LoadSet` behind the two files.
  unfoldable pub build_set :
      String → String → CaseFile → List (String × String) → Result (CaseSet Bytes)
  unfolding build_cases digest_input canonical sort_texts
  build_set findings_path raw_set s library = elim (build_cases findings_path library s.cases) [
    | err why ↦ err why
    | ok built ↦ ok (record {
      name = s.name;
      sealed = s.sealed;
      note = s.note;
      cases = built;
      digest =
          "sha256:"
          <> hex (
              sum_of_text (
                canonical raw_set
                <> digest_input library none (sort_texts (finding_names s.cases))));
    })
  ]

  -- `LoadSet`
  unfoldable pub load_set : String → String → Result (CaseSet Bytes)
  unfolding build_set
  load_set set_path findings_path = elim (read_file set_path) [
    | err why ↦ err why
    | ok raw_set ↦ elim (read_file findings_path) [
      | err why ↦ err why
      | ok raw_library ↦ elim (decode_set raw_set) [
        | err why ↦ err (wrap ("parse " <> set_path) why)
        | ok s ↦ elim (decode_library raw_library) [
          | err why ↦ err (wrap ("parse " <> findings_path) why)
          | ok library ↦ build_set findings_path raw_set s library
        ]
      ]
    ]
  ]

-- `closedSet`
unfoldable pub closed_set : String → Bool
closed_set v =
    v == "accepted" || v == "contradicts_decision" || v == "new" || v == "insufficient_evidence"

abbrev pub is_end : Fields → Bool
is_end end = true
is_end (field k v fs) = false

unfoldable pub outside_problems : String → List String → List String
unfolding closed_set
outside_problems name [] = []
outside_problems name (v ∷ vs) =
    problem_if (not (closed_set v))
      (name <> (": verdict " <> (quote v <> " is outside the closed set")))
    ++ outside_problems name vs

unfoldable pub support_problems : Index → String → List String → List String
unfolding lookup_entry
support_problems idx name [] = []
support_problems idx name (id ∷ ids) = elim (lookup_entry idx id) [
  | some e ↦ support_problems idx name ids
  | none ↦
      (name <> (": supporting entry " <> (quote id <> " does not resolve in the corpus")))
      ∷ support_problems idx name ids
]

-- The checks of a case that has a name.
unfoldable pub case_problems : Index → List String → Case → List String
unfolding contains_text outside_problems support_problems
case_problems idx seen c =
    problem_if (contains_text seen c.name) (c.name <> ": the name is used twice")
    ++ (problem_if (not (contains_text kinds c.kind))
          (c.name <> (": kind " <> (quote c.kind <> " is not one of the known kinds")))
        ++ (problem_if (not (contains_text origins c.origin))
              (c.name <> (": origin " <> (quote c.origin <> " is not real, derived or synthetic")))
            ++ (problem_if (blank c.why || blank c.evidence)
                  (c.name <> ": an expected answer needs a reason and the evidence behind it")
                ++ (problem_if
                      (c.origin == "real" && (not (is_end c.set) || not (is_empty c.delete)))
                      (c.name <> ": a real finding is unchanged; a changed one is derived")
                    ++ (outside_problems c.name (c.prefer ∷ c.accept)
                        ++ (problem_if
                              ((c.prefer == "accepted" || c.prefer == "contradicts_decision")
                                && is_empty c.support)
                              (c.name
                                <> (": prefers "
                                    <> (c.prefer
                                        <> ", which cites, and lists no supporting entry")))
                            ++ (support_problems idx c.name c.support
                                ++ problem_if
                                    (not (c.require == "")
                                      && not (contains_text c.support c.require))
                                    (c.name
                                      <> (": required entry "
                                          <> (quote c.require
                                              <> " is not in the supporting list"))))))))))

-- The loop of `Set.Validate`, with the names that it has seen.
unfoldable pub set_problems : Index → List String → List Case → List String
unfolding case_problems
set_problems idx seen [] = []
set_problems idx seen (c ∷ cs) =
    let unnamed = "a case has no name" ∷ set_problems idx seen cs in
    let named = case_problems idx seen c ++ set_problems idx (c.name ∷ seen) cs in
    if blank c.name then unnamed else named

abbrev pub written_cases : {Bytes : Type 0} → List (BuiltCase Bytes) → List Case
written_cases [] = []
written_cases (b ∷ bs) = b.written ∷ written_cases bs

-- `Set.Validate`; `none` is the nil error.
unfoldable pub validate_set : {Bytes : Type 0} → CaseSet Bytes → Index → Option String
unfolding set_problems
validate_set s idx =
    let problems = set_problems idx [] (written_cases s.cases) in
    if is_empty problems
    then none
    else some ("set " <> (s.name <> (" is invalid:\n  " <> join problems "\n  ")))
