-- ===== src/Worker/Startup.antt =====
-- cmd/triage-worker/main.go: from the flags and the environment to a worker that pulls.
use mathlib.Core.List.{[]}
use ai_k8s.Prelude.{
  ℕ, String, Option, none, some, if◌then◌else◌, ◌==◌, Eq-string, Result, ok, err, Error, failed,
  wrap,
}
use ai_k8s.Platform.{Platform}
use ai_k8s.Corpus.Index.{Index}
use ai_k8s.Corpus.Load.Compile.{unmarshal}
use ai_k8s.Verdict.Record.{Provenance}
use ai_k8s.Notify.{PodIdentity, pod_identity_from}
use ai_k8s.Ledger.State.{State}
use ai_k8s.Model.Prompt.{Params}
use ai_k8s.Model.Spend.{Instant, Prices}
use ai_k8s.Model.Settle.{Settler, Memory}
use ai_k8s.Cloud.Vertex.{Endpoint, endpoint_of, generate}
use ai_k8s.Health
use ai_k8s.Worker.World.{World, Worker}
use ai_k8s.Worker.Handle.{parse_crash_at, handle}

module _ (P : Platform) where
  -- `modelSettings`; the times are numbers of nanoseconds.
  pub record ModelSettings : Type 0 where
    pub id : String
    pub location : String
    pub timeout : ℕ
    pub max_input_tokens : ℕ
    pub max_output_tokens : ℕ
    pub ceiling_usd : P.Float
    pub prices : Prices P

  -- `settings`
  pub record Settings : Type 0 where
    pub corpus_path : String
    pub subscription : String
    pub bucket_name : String
    pub report_every : ℕ
    pub probe_addr : String
    pub idle_limit : ℕ
    pub crash_at : String
    pub model : ModelSettings

  -- What starting a worker takes from outside: the environment, the file and its JSON, the clock, and
  -- the clients, which open or fail. The endpoint at a URL may answer each call in its own way.
  pub record Outside : Type 0 where
    pub getenv : String → String
    pub read_file : String → Result String
    pub decode_index : String → Result Index
    pub open_bucket : String → Option Error
    pub open_log : String → Option Error
    pub open_vertex : String → ℕ → Result (ℕ → Endpoint P.Float)
    pub open_pubsub : String → Option Error
    pub clock : ℕ → Instant

  -- A worker that is ready to pull: its parts, its fresh memory, and the probes.
  pub record Launch : Type 0 where
    pub pod : PodIdentity
    pub worker : Worker P
    pub memory : Memory P
    pub probes : Health.State

module _ (P : Platform) (outside : Outside P) where
  open outside use {
    getenv, read_file, decode_index, open_bucket, open_log, open_vertex, open_pubsub, clock,
  }

  -- `loadCorpus`
  unfoldable pub load_corpus : String → Result Index
  unfolding unmarshal
  load_corpus path = elim (read_file path) [
    | err why ↦ err (wrap "read the compiled corpus" why)
    | ok body ↦ unmarshal decode_index body
  ]

  -- `provenance`
  unfoldable pub provenance : Provenance
  provenance = record {
    corpus_commit = getenv "CORPUS_COMMIT";
    agent_commit = getenv "AGENT_COMMIT";
    image_digest = getenv "IMAGE_DIGEST";
    model = "";
    model_params = "";
    prompt_digest = "";
    input_tokens = 0;
    output_tokens = 0;
    cost_estimate = "";
  }

  abbrev params_of : ModelSettings P → Params P
  params_of m = record {
    model = m.id;
    temperature = P.of_ℕ 0;
    max_output_tokens = m.max_output_tokens;
    thinking_budget = 0;
  }

  unfoldable pub settler_of : ModelSettings P → Index → (ℕ → Endpoint P.Float) → Settler P
  unfolding generate
  settler_of m index endpoint = record {
    generate = λ n prompt params. generate P (endpoint n) prompt params;
    clock = clock;
    params = params_of m;
    index = index;
    max_input_tokens = m.max_input_tokens;
    prices = m.prices;
  }

  -- The model's half: none where the model's id is empty.
  unfoldable pub open_model : PodIdentity → ModelSettings P → Index → Result (Option (Settler P))
  unfolding settler_of endpoint_of
  open_model pod m index =
      if m.id == ""
      then ok none
      else elim (open_vertex (endpoint_of pod.project_id m.location m.id) m.timeout) [
        | err why ↦ err (wrap "open vertex ai" why)
        | ok endpoint ↦ ok (some (settler_of m index endpoint))
      ]

  abbrev fresh : ModelSettings P → Memory P
  fresh m = record {
    spend = record { ceiling = m.ceiling_usd; day = ""; total = P.of_ℕ 0 };
    ticks = 0;
    calls = [];
  }

  -- What `run` opens once the index is loaded, in its order.
  unfoldable pub open_clients : Settings P → PodIdentity → State → Index → Result (Launch P)
  unfolding open_model provenance
  open_clients s pod crash_at index = elim (open_bucket s.bucket_name) [
    | some why ↦ err (wrap "open cloud storage" why)
    | none ↦ elim (open_log pod.project_id) [
      | some why ↦ err (wrap "open cloud logging" why)
      | none ↦ elim (open_model pod s.model index) [
        | err why ↦ err why
        | ok model ↦ elim (open_pubsub pod.project_id) [
          | some why ↦ err (wrap "open pub/sub" why)
          | none ↦ ok (record {
            pod = pod;
            worker = record {
              index = index;
              provenance = provenance;
              model = model;
              crash_at = crash_at;
            };
            memory = fresh s.model;
            probes = Health.new s.idle_limit;
          })
        ]
      ]
    ]
  ]

  -- `run`, up to the pull: an error is what it returns.
  unfoldable pub launch : Settings P → Result (Launch P)
  unfolding pod_identity_from parse_crash_at load_corpus open_clients
  launch s = elim (pod_identity_from getenv) [
    | err why ↦ err why
    | ok pod ↦
        if s.bucket_name == ""
        then err (failed "-ledger-bucket is required")
        else elim (parse_crash_at s.crash_at) [
          | err why ↦ err why
          | ok crash_at ↦ elim (load_corpus s.corpus_path) [
            | err why ↦ err why
            | ok index ↦ open_clients s pod crash_at index
          ]
        ]
  ]

  -- The callback of `Receive`, at a reading of the probes' clock.
  unfoldable pub on_message :
      Worker P → ℕ → P.Bytes → Health.State × World P → Health.State × World P
  unfolding handle Health.see
  on_message worker now body (probes, w) = (Health.see now probes, handle P worker body w)
