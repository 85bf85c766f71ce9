-- ===== src/Examples/Grounded.antt =====
-- A contradiction on a compiled corpus, at a concrete finding (internal/worker, internal/corpus).
use ai_k8s.Prelude.{true, none, some, ◌≡◌, refl}
use ai_k8s.Scc.{blank}
use ai_k8s.Text.{has_prefix, strip_prefix}
use ai_k8s.Corpus.Index.{resolve, resolve_pairings, lookup, lookup_entry}
use ai_k8s.Verdict.Record.{
  contradicts_decision, validate, resolve_citations, resolved_citations, unresolved, value_of,
  common_problems, verdict_problems,
}
use ai_k8s.Verdict.Classify.{classify, classified, base_record}
use ai_k8s.Ledger.Store.{list, names_under, create, create_at}
use ai_k8s.Model.Prompt.{
  build_prompt, estimate_tokens, system, user_text, schema_json, entry_views, sort_views,
  insert_view,
}
use ai_k8s.Model.Spend.{
  reserve, open_day, load, load_from, reserve_today, cost, record_reservation, reservation_name,
}
use ai_k8s.Model.Settle.{
  settle, Settler, reserve_and_ask, after_reserve, ask, judge_reply, judge_text, judge_answer,
  contradiction, checked, answered, stamp,
}
use ai_k8s.Model.Resources.{resources_of, anchored, anchored_from, applies, any_prefix}
use ai_k8s.Worker.Decide.{
  Decision, decide, decide_by, consult, rules_record, after_settle, finish, revalidated,
}
use ai_k8s.Worker.Grounds.{StandsOnControl, decide-StandsOnControl}
use ai_k8s.Examples.Setting.{plain, public_bucket, provenance, settler, fresh_memory, empty_store}
use ai_k8s.Examples.Verdicts.{public_bucket-HasDigest}
use ai_k8s.Examples.Deciding.{is_ok, value_or, none_made, ok_value}
use ai_k8s.Examples.Compiling.{files, sources, compiled_corpus, compile_run}

abbrev informed : Settler plain
informed = record settler { index = compiled_corpus }

abbrev grounded : Decision
grounded =
    value_or none_made
      (decide plain compiled_corpus (some informed) public_bucket none provenance fresh_memory
        empty_store).0

grounded_run :
    (is_ok
        (decide plain compiled_corpus
          (some informed)
          public_bucket
          none
          provenance
          fresh_memory
          empty_store).0
      ≡ true)
    × (grounded.verdict_record.verdict ≡ contradicts_decision)
unfolding decide decide_by consult rules_record after_settle finish revalidated classify classified
    resolve resolve_pairings lookup settle build_prompt estimate_tokens system user_text schema_json
    entry_views sort_views insert_view reserve_and_ask reserve open_day load load_from list
    names_under reserve_today cost record_reservation create create_at reservation_name
    after_reserve ask judge_reply judge_text judge_answer value_of contradiction resolve_citations
    resolved_citations unresolved lookup_entry anchored anchored_from applies any_prefix
    resources_of has_prefix strip_prefix checked validate common_problems verdict_problems answered
    base_record blank stamp
grounded_run = (refl, refl)

decide-StandsOnControl_example : StandsOnControl compiled_corpus public_bucket grounded
decide-StandsOnControl_example =
    decide-StandsOnControl files sources plain informed public_bucket none provenance fresh_memory
      empty_store grounded public_bucket-HasDigest compile_run (ok_value none_made _ grounded_run.0)
      grounded_run.1
