-- ===== src/Cloud/Log.antt =====
-- internal/gcp/logging.go: the entry of a verdict.
use ai_k8s.Prelude.{String, Option, none, some, List, Result, ok, err, Error, wrap}
use ai_k8s.Verdict.Record.{
  Value, accepted, contradicts_decision, new, insufficient_evidence, other, VerdictRecord,
}
use ai_k8s.Notify.{labels}

pub data Severity : Type 0 where
  warning notice info : Severity

-- `severityFor`
unfoldable pub severity_for : Value → Severity
severity_for contradicts_decision = warning
severity_for insufficient_evidence = warning
severity_for new = notice
severity_for accepted = info
severity_for (other s) = info

-- logging.Entry; its payload is made of the whole record.
pub record LogEntry : Type 0 where
  pub severity : Severity
  pub labels : List (String × String)
  pub payload : VerdictRecord

unfoldable pub entry_of : VerdictRecord → LogEntry
unfolding severity_for labels
entry_of r = record { severity = severity_for r.verdict; labels = labels r; payload = r }

-- `VerdictLog.Emit`: the entry that is logged, and the result that the flush makes.
unfoldable pub emit_entry : VerdictRecord → Option Error → LogEntry × Result (Unit {0})
unfolding entry_of
emit_entry r none = (entry_of r, ok tt)
emit_entry r (some e) = (entry_of r, err (wrap "flush the verdict entry" e))
