-- ===== src/Examples/Progress.antt =====
-- Deliveries that nothing gets in the way of, and redeliveries (internal/worker, internal/scc).
use mathlib.Core.List.{[], Memᴰ}
use ai_k8s.Prelude.{false, none, some, ◌∷◌, ok, ◌≡◌, refl}
use ai_k8s.Text.{
  has_prefix, strip_prefix, trim_prefix, trim_suffix, strip_suffix, trim_space, join, equal_fold,
  has_char,
}
use ai_k8s.Text.Format.{hex}
use ai_k8s.Scc.{
  blank, key, parse, digest_of, check_envelope, missing_of, in_scope, is_vulnerability,
}
use ai_k8s.Scc.Key.{path_safe}
use ai_k8s.Corpus.Index.{lookup}
use ai_k8s.Verdict.Classify.{classify}
use ai_k8s.Ledger.Store.{list, names_under}
use ai_k8s.Ledger.State.{
  acknowledged, classified, furthest, furthest_of, further, state_in, state_of, object_name, before,
}
use ai_k8s.Worker.Decide.{consult, rules_record}
use ai_k8s.Worker.World.{World, Worker, acked}
use ai_k8s.Worker.Handle.{handle, triage, out_of_scope}
use ai_k8s.Worker.Safety.{empty-Safe}
use ai_k8s.Worker.Progress.{handle-Closed}
use ai_k8s.Worker.Reuse.{triage-memory, handle-kept}
use ai_k8s.Examples.Setting.{
  plain, plain-IsLawful, Body, envelope_body, record_body, corpus, provenance, public_bucket,
  worker, fresh_world,
}

-- The worker of the rules alone.
abbrev ruling : Worker plain
ruling = record worker { model = none }

parsed_bucket :
    parse plain.unmarshal_envelope plain.canonicalize plain.sum_of (envelope_body public_bucket)
    ≡ (some public_bucket, none)
unfolding parse digest_of check_envelope missing_of blank trim_space hex
parsed_bucket = refl

named_bucket : blank public_bucket.finding.canonical_name ≡ false
unfolding blank trim_space
named_bucket = refl

bucket_in_scope : out_of_scope plain ruling public_bucket none ≡ false
unfolding in_scope is_vulnerability equal_fold
bucket_in_scope = refl

rules_alone :
    consult plain none none (rules_record corpus public_bucket none provenance).verdict ≡ none
unfolding consult
rules_alone = refl

handle-Closed_example :
    Memᴰ
      (acked (key public_bucket.finding))
      (handle plain ruling (envelope_body public_bucket) fresh_world).trace
    × ((object : Body) × (lookup
            (object_name (key public_bucket.finding) acknowledged)
            (handle plain ruling (envelope_body public_bucket) fresh_world).store.objects
          ≡ some object))
handle-Closed_example =
    handle-Closed plain plain-IsLawful ruling refl (envelope_body public_bucket) fresh_world
      public_bucket none parsed_bucket named_bucket bucket_in_scope rules_alone refl refl
      (empty-Safe plain plain-IsLawful ruling fresh_world refl refl)

-- An earlier delivery got as far as `classified`.
abbrev resumed_world : World plain
resumed_world = record fresh_world {
  store = record {
    objects =
        ("org/1/t1/ACTIVE/classified.json", record_body (classify public_bucket corpus provenance))
        ∷ [];
    script = [];
  };
}

classified_before :
    (furthest (key public_bucket.finding) resumed_world.store).0 ≡ ok (some classified)
unfolding furthest list names_under has_prefix strip_prefix furthest_of further state_in state_of
    trim_prefix trim_suffix strip_suffix has_char before key path_safe join
classified_before = refl

not_before : before classified classified ≡ false
unfolding before
not_before = refl

triage-memory_example :
    (triage plain worker public_bucket none resumed_world).1.memory ≡ fresh_world.memory
triage-memory_example =
    triage-memory plain worker public_bucket none resumed_world classified classified_before
      not_before

there :
    lookup "org/1/t1/ACTIVE/classified.json" resumed_world.store.objects
    ≡ some (record_body (classify public_bucket corpus provenance))
unfolding lookup
there = refl

handle-kept_example :
    lookup "org/1/t1/ACTIVE/classified.json"
      (handle plain worker (envelope_body public_bucket) resumed_world).store.objects
    ≡ some (record_body (classify public_bucket corpus provenance))
handle-kept_example =
    handle-kept plain worker (envelope_body public_bucket) resumed_world
      "org/1/t1/ACTIVE/classified.json" (record_body (classify public_bucket corpus provenance))
      there
