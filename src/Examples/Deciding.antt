-- ===== src/Examples/Deciding.antt =====
-- The model's half and the decisions at concrete inputs (internal/model, internal/worker).
use mathlib.Core.List.{[]}
use ai_k8s.Prelude.{
  Bool, true, false, Option, none, some, Result, ok, err, Error, model_failed, ◌≡◌, ◌≢◌, refl, ◌↔◌,
  ◌⊎◌,
}
use ai_k8s.Scc.{blank}
use ai_k8s.Text.{has_prefix, strip_prefix}
use ai_k8s.Corpus.Index.{resolve, resolve_pairings, lookup, lookup_entry}
use ai_k8s.Verdict.Record.{
  accepted, contradicts_decision, validate, resolve_citations, resolved_citations, unresolved,
  value_of, common_problems, verdict_problems,
}
use ai_k8s.Verdict.Classify.{insufficient, classify, classified, base_record}
use ai_k8s.Ledger.Store.{list, names_under, create, create_at}
use ai_k8s.Model.Prompt.{
  build_prompt, estimate_tokens, system, user_text, schema_json, entry_views, sort_views,
  insert_view,
}
use ai_k8s.Model.Spend.{
  reserve, open_day, load, load_from, reserve_today, cost, record_reservation, reservation_name,
}
use ai_k8s.Model.Settle.{
  Outcome, not_refused, settle, reserve_and_ask, after_reserve, ask, judge_reply, judge_text,
  judge_answer, contradiction, checked, answered, stamp,
}
use ai_k8s.Model.Resources.{resources_of, anchored, anchored_from, applies, any_prefix}
use ai_k8s.Model.Settling.{Paid, settle-Paid}
use ai_k8s.Worker.Decide.{
  Decision, decide, decide_by, consult, rules_record, after_settle, finish, revalidated,
}
use ai_k8s.Worker.Decisions.{validate-decide, decide-accepted_iff}
use ai_k8s.Examples.Setting.{
  plain, corpus, public_bucket, provenance, settler, fresh_memory, empty_store, bucket,
}
use ai_k8s.Examples.Verdicts.{public_bucket-HasDigest}

abbrev pub none_made : Outcome
none_made = record {
  verdict_record = insufficient public_bucket [] provenance;
  called = false;
  refusal = not_refused;
}

abbrev pub value_or {ℓ} : {A : Type ℓ} → A → Result A → A
value_or a (ok b) = b
value_or a (err e) = a

abbrev pub is_ok {ℓ} : {A : Type ℓ} → Result A → Bool
is_ok (ok a) = true
is_ok (err e) = false

pub ok_value {ℓ} : {A : Type ℓ} (a : A) (r : Result A) → is_ok r ≡ true → r ≡ ok (value_or a r)
ok_value a (ok b) h = refl
ok_value a (err e) h = cc h

abbrev asked : Decision
asked =
    value_or none_made
      (decide plain corpus (some settler) public_bucket none provenance fresh_memory empty_store).0

asked_run :
    (is_ok
        (decide plain corpus
          (some settler)
          public_bucket
          none
          provenance
          fresh_memory
          empty_store).0
      ≡ true)
    × (asked.verdict_record.verdict ≡ contradicts_decision)
unfolding decide decide_by consult rules_record after_settle finish revalidated classify classified
    resolve resolve_pairings lookup settle build_prompt estimate_tokens system user_text schema_json
    entry_views sort_views insert_view reserve_and_ask reserve open_day load load_from list
    names_under reserve_today cost record_reservation create create_at reservation_name
    after_reserve ask judge_reply judge_text judge_answer value_of contradiction resolve_citations
    resolved_citations unresolved lookup_entry anchored anchored_from applies any_prefix
    resources_of has_prefix strip_prefix checked validate common_problems verdict_problems answered
    base_record blank stamp
asked_run = (refl, refl)

asked_ok :
    (decide plain corpus (some settler) public_bucket none provenance fresh_memory empty_store).0
    ≡ ok asked
asked_ok = ok_value none_made _ asked_run.0

decide-accepted_iff_example :
    (asked.verdict_record.verdict ≡ accepted)
    ↔ ((◌≡◌ {A = Option Error} none none) × (resolve corpus "PUBLIC_BUCKET_ACL" bucket ≢ []))
decide-accepted_iff_example =
    decide-accepted_iff plain corpus public_bucket public_bucket-HasDigest (some settler) none
      provenance fresh_memory empty_store asked asked_ok

validate-decide_example : validate asked.verdict_record ≡ none
validate-decide_example =
    validate-decide plain corpus public_bucket public_bucket-HasDigest (some settler) none
      provenance fresh_memory empty_store asked asked_ok

-- The endpoint is out of reach: the decision fails, and the reservation stays.
abbrev no_route : Error
no_route = model_failed "call the model: no route"

settle-Paid_example :
    let (r, (m', st')) = settle plain settler public_bucket provenance fresh_memory empty_store in
    (m'.calls ≡ []) ⊎ Paid plain settler public_bucket provenance fresh_memory empty_store m' st'
settle-Paid_example = settle-Paid plain settler public_bucket provenance fresh_memory empty_store
