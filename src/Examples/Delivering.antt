-- ===== src/Examples/Delivering.antt =====
-- A crash drill behind the notification, a restart, and the redelivery (internal/worker).
use mathlib.Core.List.{[]}
use ai_k8s.Prelude.{none, some, ok, ◌≡◌, ◌≤◌, List, ◌∷◌, refl}
use ai_k8s.Text.{
  has_prefix, strip_prefix, trim_prefix, trim_suffix, strip_suffix, trim_space, join, equal_fold,
  has_char,
}
use ai_k8s.Text.Format.{hex}
use ai_k8s.Scc.{
  blank, key, parse, digest_of, check_envelope, missing_of, in_scope, is_vulnerability,
}
use ai_k8s.Scc.Key.{path_safe}
use ai_k8s.Corpus.Index.{resolve, resolve_pairings, lookup}
use ai_k8s.Verdict.Record.{validate, common_problems, verdict_problems}
use ai_k8s.Verdict.Classify.{classify, classified as classified_record, base_record}
use ai_k8s.Notify.{notifies}
use ai_k8s.Ledger.Store.{list, names_under, create, create_at, read}
use ai_k8s.Ledger.State.{
  acknowledged, notification_attempted, write, furthest, furthest_of, further, state_in, state_of,
  object_name, before, read_state,
}
use ai_k8s.Worker.Decide.{decide, decide_by, consult, rules_record, finish, revalidated}
use ai_k8s.Worker.World.{Worker}
use ai_k8s.Worker.Handle.{
  after_decide, settle_finding, tolerate, write_state, note_drift, resumed, resume, parse_stored,
  read_classified, crash_if, write_received, fresh_record, record_for, attempt, emit, notify,
  acknowledge, advance, triage, settle_message, handle_parsed, handle,
}
use ai_k8s.Worker.Counting.{count_settled, count_verdict, count_record, count_refusal}
use ai_k8s.Worker.Deliver.{Delivery, message, restart, deliver}
use ai_k8s.Worker.Steps.{Safe}
use ai_k8s.Ledger.Furthest.{height}
use ai_k8s.Worker.Forward.{deliver-Forward}
use ai_k8s.Examples.Setting.{plain, envelope_body, public_bucket, worker, fresh_world}

-- The rules alone, dying before the acknowledgement.
abbrev drilled : Worker plain
drilled = record worker { model = none; crash_at = acknowledged }

abbrev deliveries : List (Delivery plain)
deliveries =
    message (envelope_body public_bucket)
    ∷ restart (record worker { model = none })
    ∷ message (envelope_body public_bucket)
    ∷ []

-- The finding after the drill, and after its redelivery.
drilled_once :
    (furthest "org/1/t1/ACTIVE"
      (handle plain drilled (envelope_body public_bucket) fresh_world).store).0
    ≡ ok (some notification_attempted)
unfolding deliver handle parse digest_of check_envelope missing_of blank trim_space handle_parsed
    in_scope is_vulnerability equal_fold key path_safe join triage resume furthest list names_under
    furthest_of further state_in state_of trim_prefix trim_suffix strip_prefix strip_suffix
    has_prefix has_char resumed note_drift read_state read object_name lookup advance record_for
    before fresh_record settle_finding after_decide decide decide_by consult rules_record classify
    classified_record resolve resolve_pairings base_record finish revalidated validate
    common_problems verdict_problems count_refusal crash_if write_received write_state write create
    create_at tolerate count_record count_settled count_verdict attempt notifies notify emit
    acknowledge settle_message read_classified parse_stored hex
drilled_once = refl

closed :
    (furthest "org/1/t1/ACTIVE"
      (deliver plain
        (record worker { model = none })
        (message (envelope_body public_bucket) ∷ [])
        (handle plain drilled (envelope_body public_bucket) fresh_world)).store).0
    ≡ ok (some acknowledged)
unfolding deliver handle parse digest_of check_envelope missing_of blank trim_space handle_parsed
    in_scope is_vulnerability equal_fold key path_safe join triage resume furthest list names_under
    furthest_of further state_in state_of trim_prefix trim_suffix strip_prefix strip_suffix
    has_prefix has_char resumed note_drift read_state read object_name lookup advance record_for
    before fresh_record settle_finding after_decide decide decide_by consult rules_record classify
    classified_record resolve resolve_pairings base_record finish revalidated validate
    common_problems verdict_problems count_refusal crash_if write_received write_state write create
    create_at tolerate count_record count_settled count_verdict attempt notifies notify emit
    acknowledge settle_message read_classified parse_stored hex
closed = refl

deliver-Forward_example : height (some notification_attempted) ≤ height (some acknowledged)
deliver-Forward_example =
    deliver-Forward plain (record worker { model = none })
      (message (envelope_body public_bucket) ∷ [])
      (handle plain drilled (envelope_body public_bucket) fresh_world) "org/1/t1/ACTIVE"
      (some notification_attempted) (some acknowledged) drilled_once closed
