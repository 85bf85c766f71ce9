-- ===== src/Examples/Starting.antt =====
-- A worker that starts, an answer of its model's endpoint, and its probes (cmd/triage-worker,
-- internal/gcp, internal/health).
use mathlib.Core.List.{[]}
use ai_k8s.Prelude.{ℕ, ◌-◌, ◌≤◌, ◌≡◌, ◌≢◌, ◌↔◌, true, false, none, some, ◌∷◌, ok}
use ai_k8s.Ledger.State.{other}
use ai_k8s.Model.Prompt.{Prompt, Reply}
use ai_k8s.Cloud.Vertex.{Endpoint}
use ai_k8s.Health.{started_at, seen_at, new, live, ready, run}
use ai_k8s.Health.Probes.{has_started, run-live_iff}
use ai_k8s.Worker.Startup.{Settings, Outside, Launch, provenance, settler_of}
use ai_k8s.Examples.Setting.{provenance as provenance_of, plain, corpus, noon, fresh_memory}

-- An endpoint whose one answer calls the finding a contradiction, in two parts.
abbrev endpoint : Endpoint ℕ
endpoint = record {
  encode = λ request. ok "{}";
  build_request = λ body. ok body;
  post = λ request. ok (record { status = 200; body = ok "{}" });
  decode = λ body. ok (record {
    candidates =
        record {
          parts =
              record { text = "contra"; function_call = false }
              ∷ record { text = "diction"; function_call = false }
              ∷ [];
          finish_reason = "STOP";
        }
        ∷ [];
    prompt_token_count = 900;
    candidates_token_count = 40;
    thoughts_token_count = 0;
    model_version = "001";
  });
}

abbrev prompt : Prompt
prompt = record { system = "s"; user = "u"; schema = "{}" }

abbrev answered : Reply
answered = record {
  text = "contradiction";
  finish_reason = "STOP";
  tool_calls = 0;
  usage = record { input_tokens = 900; output_tokens = 40; model_version = "001" };
}

-- A cluster in which every client opens.
abbrev outside : Outside plain
outside = record {
  getenv = λ name. "triage";
  read_file = λ path. ok "{}";
  decode_index = λ body. ok corpus;
  open_bucket = λ name. none;
  open_log = λ project. none;
  open_vertex = λ url timeout. ok (λ n. endpoint);
  open_pubsub = λ project. none;
  clock = λ n. noon;
}

abbrev settings : Settings plain
settings = record {
  corpus_path = "/corpus.json";
  subscription = "findings";
  bucket_name = "ledger";
  report_every = 60;
  probe_addr = ":8080";
  idle_limit = 600;
  crash_at = "";
  model = record {
    id = "gemini";
    location = "europe-west1";
    timeout = 30;
    max_input_tokens = 20000;
    max_output_tokens = 1000;
    ceiling_usd = 100;
    prices = record { input_per_million = 1000; output_per_million = 2000 };
  };
}

abbrev launched : Launch plain
launched = record {
  pod = record {
    project_id = "triage";
    cluster_name = "triage";
    location = "triage";
    namespace = "triage";
    pod_name = "triage";
    container_name = "triage";
  };
  worker = record {
    index = corpus;
    provenance = provenance plain outside;
    model = some (settler_of plain outside settings.model corpus (λ n. endpoint));
    crash_at = other "";
  };
  memory = fresh_memory;
  probes = new 600;
}

-- Started at 1, and last seen at 5, with a limit of 10.
run-live_iff_example :
    ((live 20 (run (started_at 1 ∷ seen_at 5 ∷ []) (new 10)) ≡ false)
      ↔ ((has_started (started_at 1 ∷ seen_at 5 ∷ []) ≡ true) × (◌≢◌ {A = ℕ} 10 0) × (10 ≤ 20 - 5)))
    × (ready (run (started_at 1 ∷ seen_at 5 ∷ []) (new 10)) ≡ true)
run-live_iff_example = run-live_iff 10 20 (started_at 1) (seen_at 5 ∷ [])
