-- ===== src/Worker/Launched.antt =====
-- What a worker that starts (cmd/triage-worker/main.go) has been checked for.
use ai_k8s.Prelude.{◌≡◌, ◌≢◌, ◌⊎◌, ℕ, Option, none, some, All, Eq-string}
use ai_k8s.Platform.{Platform}
use ai_k8s.Scc.Required.{IsGiven}
use ai_k8s.Corpus.Index.{Index}
use ai_k8s.Corpus.Checked.{IsChecked}
use ai_k8s.Notify.{PodIdentity, monitored_resource}
use ai_k8s.Ledger.State.{State, state_text}
use ai_k8s.Model.Prompt.{Params, Prompt}
use ai_k8s.Model.Settle.{Settler}
use ai_k8s.Cloud.Vertex.{Endpoint, generate}
use ai_k8s.Worker.World.{Worker}
use ai_k8s.Worker.Drill.{IsBoundary}
use ai_k8s.Worker.Startup.{ModelSettings, Settings, Outside, Launch, settler_of}

module _ (P : Platform) where
  -- The model's half of a worker: off where no model is named, and else on the worker's own corpus,
  -- within the flags' budgets, through the endpoint alone.
  pub record IsModel (m : ModelSettings P) (worker : Worker P) (s : Settler P) : Type 0 where
    pub here : worker.model ≡ some s
    pub index : s.index ≡ worker.index
    pub budget : s.max_input_tokens ≡ m.max_input_tokens
    pub output : s.params.max_output_tokens ≡ m.max_output_tokens
    pub endpoint : ℕ → Endpoint P.Float
    pub through :
        (n : ℕ) (p : Prompt) (params : Params P)
        → s.generate n p params ≡ generate P (endpoint n) p params

  abbrev pub HasModel : ModelSettings P → Worker P → Type 0
  HasModel m worker = ((m.id ≡ "") × (worker.model ≡ none)) ⊎ ((s : Settler P) × IsModel m worker s)

  pub record IsLaunched (s : Settings P) (l : Launch P) : Type 0 where
    pub identified : All IsGiven (monitored_resource l.pod).labels
    pub bucket : s.bucket_name ≢ ""
    pub drill : (s.crash_at ≡ state_text l.worker.crash_at) × IsBoundary l.worker.crash_at
    pub checked : IsChecked l.worker.index
    pub model : HasModel s.model l.worker
    pub ceiling : l.memory.spend.ceiling ≡ s.model.ceiling_usd

module _ (P : Platform) (outside : Outside P) where
  -- What `open_model` returns.
  abbrev Opened : ModelSettings P → Index → Option (Settler P) → Type 0
  Opened m index model =
      ((m.id ≡ "") × (model ≡ none))
      ⊎ ((endpoint : ℕ → Endpoint P.Float) × (model ≡ some (settler_of P outside m index endpoint)))

  -- A worker behind the clients, by what they were opened for.
  record AreOpen (s : Settings P) (pod : PodIdentity) (crash_at : State) (index : Index)
      (l : Launch P) : Type 0 where
    pod_same : l.pod ≡ pod
    drill_same : l.worker.crash_at ≡ crash_at
    index_same : l.worker.index ≡ index
    model : HasModel P s.model l.worker
    ceiling : l.memory.spend.ceiling ≡ s.model.ceiling_usd
