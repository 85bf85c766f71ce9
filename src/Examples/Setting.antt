-- ===== src/Examples/Setting.antt =====
-- A platform, a corpus, a finding and a model to run the program on: bodies are kept as they are,
-- and an amount of money is a natural number.
use mathlib.Core.List.{[]}
use ai_k8s.Prelude.{
  ℕ, ◌+◌, ◌*◌, ◌/◌, String, some, ◌∷◌, ltb, if◌then◌else◌, ◌==◌, Eq-string, Result, ok, err, failed,
  refl, ap, sym, ok-injective,
}
use ai_k8s.Text.Format.{decimal}
use ai_k8s.Platform.{Platform, IsLawful, Reservation, Answer}
use ai_k8s.Scc.{Envelope, end}
use ai_k8s.Corpus.Index.{Pairing, Entry, Index, control, decision}
use ai_k8s.Verdict.Record.{VerdictRecord, Provenance}
use ai_k8s.Ledger.Store.{Store}
use ai_k8s.Ledger.State.{other}
use ai_k8s.Model.Prompt.{Reply}
use ai_k8s.Model.Spend.{Instant}
use ai_k8s.Model.Settle.{Settler, Memory}
use ai_k8s.Worker.World.{World, Worker, no_counts}

pub data Body : Type 0 where
  envelope_body : Envelope → Body
  record_body : VerdictRecord → Body
  reservation_body : Reservation ℕ → Body

abbrev envelope_in : Body → Result Envelope
envelope_in (envelope_body e) = ok e
envelope_in _ = err (failed "no envelope")

abbrev record_in : Body → Result VerdictRecord
record_in (record_body r) = ok r
record_in _ = err (failed "no record")

abbrev reservation_in : Body → Result (Reservation ℕ)
reservation_in (reservation_body r) = ok r
reservation_in _ = err (failed "no reservation")

-- The one text that decodes: an answer that calls the finding a contradiction.
abbrev answer_in : String → Result Answer
answer_in text =
    if text == "contradiction"
    then ok (record {
      verdict = "contradicts_decision";
      citations = "control:private_buckets" ∷ [];
      reasoning = "The bucket is public.";
      missing_evidence = [];
      recommended_action = "Close it.";
      confidence = "high";
    })
    else err (failed "no answer")

abbrev pub plain : Platform
plain = record {
  Bytes = Body;
  Float = ℕ;
  unmarshal_envelope = envelope_in;
  canonicalize = λ body. ok body;
  marshal_record = record_body;
  unmarshal_record = record_in;
  marshal_reservation = λ r. ok (reservation_body r);
  unmarshal_reservation = reservation_in;
  marshal_finding = λ view. ok "{}";
  marshal_entries = λ views. ok "[]";
  decode_answer = answer_in;
  sum_of = λ body. 171 ∷ [];
  sum_of_text = λ text. 172 ∷ [];
  sum_prefix = λ text. 173 ∷ [];
  of_ℕ = λ n. n;
  add_float = λ a b. a + b;
  mul_float = λ a b. a * b;
  per_million = λ a. a / 1000000;
  gt_float = λ a b. ltb b a;
  format_fixed = λ digits a. decimal a;
  format_general = decimal;
  format_shortest = decimal;
}

pub plain-IsLawful : IsLawful plain
plain-IsLawful = record {
  unmarshal-record = λ r. refl;
  unmarshal-reservation = λ r body h. ap reservation_in (sym (ok-injective h));
}

abbrev pub bucket : String
bucket = "//storage.googleapis.com/state"

abbrev pub private_buckets : Entry
private_buckets = record {
  id = "control:private_buckets";
  kind = control;
  summary = "Buckets are private.";
  source = "controls.yaml";
  applies_to = "//storage.googleapis.com/" ∷ [];
}

abbrev pub one_node : Entry
one_node = record {
  id = "decision:one-node";
  kind = decision;
  summary = "One node pool is enough.";
  source = "docs/decisions.md";
  applies_to = [];
}

abbrev pub priced_pool : Pairing
priced_pool = record {
  resource = "//container/pool";
  cite = "decision:one-node" ∷ [];
  why = "One pool is enough.";
}

-- The corpus prices one finding on one resource, and holds a control for buckets.
abbrev pub corpus : Index
corpus = record {
  entries = ("control:private_buckets", private_buckets) ∷ ("decision:one-node", one_node) ∷ [];
  mapping = ("SINGLE_ZONE", priced_pool ∷ []) ∷ [];
  skipped_decisions = [];
}

abbrev pub finding_of : String → String → Envelope
finding_of category resource = record {
  notification_config_name = "";
  finding = record {
    name = "n";
    canonical_name = "org/1";
    parent = "";
    parent_display_name = "";
    category = category;
    resource_name = resource;
    state = "ACTIVE";
    severity = "HIGH";
    finding_class = "MISCONFIGURATION";
    event_time = "t1";
    create_time = "";
    description = "";
    external_uri = "";
    mute = "";
    source_properties = end;
  };
  resource = end;
  digest = "sha256:ab";
}

abbrev pub public_bucket : Envelope
public_bucket = finding_of "PUBLIC_BUCKET_ACL" bucket

abbrev pub single_zone : Envelope
single_zone = finding_of "SINGLE_ZONE" "//container/pool"

abbrev pub provenance : Provenance
provenance = record {
  corpus_commit = "c";
  agent_commit = "a";
  image_digest = "i";
  model = "";
  model_params = "";
  prompt_digest = "";
  input_tokens = 0;
  output_tokens = 0;
  cost_estimate = "";
}

abbrev pub noon : Instant
noon = record {
  day = "2025-06-01";
  stamp = "2025-06-01T12:00:00Z";
  unix_nano = 7;
  nonce = some (1 ∷ []);
}

abbrev contradicting : Reply
contradicting = record {
  text = "contradiction";
  finish_reason = "STOP";
  tool_calls = 0;
  usage = record { input_tokens = 900; output_tokens = 40; model_version = "001" };
}

abbrev pub settler : Settler plain
settler = record {
  generate = λ n prompt params. ok contradicting;
  clock = λ n. noon;
  params = record { model = "m"; temperature = 0; max_output_tokens = 1000; thinking_budget = 0 };
  index = corpus;
  max_input_tokens = 20000;
  prices = record { input_per_million = 1000; output_per_million = 2000 };
}

-- The same endpoint, out of reach.
abbrev pub unreachable : Settler plain
unreachable = record settler { generate = λ n prompt params. err (failed "no route") }

abbrev pub empty_store : Store Body
empty_store = record { objects = []; script = [] }

abbrev pub fresh_memory : Memory plain
fresh_memory = record {
  spend = record { ceiling = 100; day = ""; total = 0 };
  ticks = 0;
  calls = [];
}

abbrev pub worker : Worker plain
worker = record {
  index = corpus;
  provenance = provenance;
  model = some settler;
  crash_at = other "";
}

abbrev pub fresh_world : World plain
fresh_world = record {
  store = empty_store;
  memory = fresh_memory;
  emits = [];
  trace = [];
  counts = no_counts;
}
