-- ===== src/Eval/Judge.antt =====
-- internal/eval/score.go and case.go: a run held against the answer that is written for its case.
use mathlib.Core.List.{[]}
use ai_k8s.Prelude.{
  ℕ, String, Bool, true, false, not, ◌&&◌, ◌||◌, List, ◌∷◌, if◌then◌else◌, is_empty, ◌==◌,
  Eq-string,
}
use ai_k8s.Scc.{Fields}
use ai_k8s.Model.Settle.{Refusal}

-- `Case`, without the body that LoadSet builds.
pub record Case : Type 0 where
  pub name : String
  pub kind : String
  pub origin : String
  pub prefer : String
  pub accept : List String
  pub support : List String
  pub require : String
  pub why : String
  pub evidence : String
  pub finding : String
  pub set : Fields
  pub delete : List String

-- The kinds of mistake; `unset` is the empty text.
pub data ErrorKind : Type 0 where
  unset silenced missed_contradiction overconfident false_contradiction : ErrorKind
  needless_abstention unsupported_citation call_failed other : ErrorKind

pub record Judgement : Type 0 where
  pub right : Bool
  pub preferred : Bool
  pub unsupported : List String
  pub missing_required : Bool
  pub error : ErrorKind

abbrev pub no_judgement : Judgement
no_judgement = record {
  right = false;
  preferred = false;
  unsupported = [];
  missing_required = false;
  error = unset;
}

-- `Run`, over the type of the amounts of money.
pub record Run (Float : Type 0) : Type 0 where
  pub verdict : String
  pub citations : List String
  pub settled_by : String
  pub called : Bool
  pub refusal : Refusal
  pub error : String
  pub latency_ms : ℕ
  pub input_tokens : ℕ
  pub output_tokens : ℕ
  pub cost_usd : Float
  pub reasoning : String
  pub missing : List String
  pub judgement : Judgement

-- `contains` of case.go.
unfoldable pub contains_text : List String → String → Bool
contains_text [] s = false
contains_text (x ∷ xs) s = x == s || contains_text xs s

-- `Case.Right`
unfoldable pub right_for : Case → String → Bool
right_for c v = v == c.prefer || contains_text c.accept v

-- The loop over the citations.
unfoldable pub unsupported_of : List String → List String → List String
unsupported_of support [] = []
unsupported_of support (id ∷ ids) =
    let rest = unsupported_of support ids in if contains_text support id then rest else id ∷ rest

-- `errorKind`
unfoldable pub error_kind : Case → String → ErrorKind
error_kind c got =
    if got == "accepted"
    then silenced
    else if c.prefer == "contradicts_decision" && not (got == "contradicts_decision")
    then missed_contradiction
    else if c.prefer == "insufficient_evidence" && not (got == "insufficient_evidence")
    then overconfident
    else if got == "contradicts_decision"
    then false_contradiction
    else if got == "insufficient_evidence"
    then needless_abstention
    else other

unfoldable pub misses_required : {Float : Type 0} → Case → Run Float → Bool
misses_required c r =
    not (c.require == "")
    && (not (is_empty r.citations) && not (contains_text r.citations c.require))

-- `Judge` of a run whose call completed, over what it finds on the way.
unfoldable pub judged : Case → String → Bool → Bool → List String → Bool → Judgement
judged c v preferred false unsupported missing = record {
  right = false;
  preferred = preferred;
  unsupported = unsupported;
  missing_required = false;
  error = error_kind c v;
}
judged c v preferred true unsupported missing =
    if not (is_empty unsupported) || missing
    then record {
      right = false;
      preferred = false;
      unsupported = unsupported;
      missing_required = missing;
      error = unsupported_citation;
    }
    else record {
      right = true;
      preferred = preferred;
      unsupported = unsupported;
      missing_required = missing;
      error = unset;
    }

-- `Judge`
unfoldable pub judge : {Float : Type 0} → Case → Run Float → Judgement
judge c r =
    if r.error == ""
    then judged c r.verdict (r.verdict == c.prefer) (right_for c r.verdict)
        (unsupported_of c.support r.citations) (misses_required c r)
    else record {
      right = false;
      preferred = false;
      unsupported = [];
      missing_required = false;
      error = call_failed;
    }
