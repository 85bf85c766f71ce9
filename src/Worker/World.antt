-- ===== src/Worker/World.antt =====
-- The surroundings of the worker: the bucket, the model's memory, the notifier, and a record of
-- what the worker did to them; and the steps that read and change them.
use mathlib.Core.List.{[]}
use ai_k8s.Prelude.{ℕ, String, Bool, true, Option, List, ◌∷◌, Result}
use ai_k8s.Worker.Flow.{Run, done}
use ai_k8s.Platform.{Platform}
use ai_k8s.Corpus.Index.{Index}
use ai_k8s.Verdict.Record.{VerdictRecord, Provenance}
use ai_k8s.Ledger.Store.{Store}
use ai_k8s.Ledger.State.{State}
use ai_k8s.Model.Settle.{Settler, Memory}

-- `Counts` of internal/worker/counters.go.
pub record Counts : Type 0 where
  pub received : ℕ
  pub unreadable : ℕ
  pub vulnerabilities_skipped : ℕ
  pub redelivered : ℕ
  pub drift : ℕ
  pub settled_by_rules : ℕ
  pub settled_by_model : ℕ
  pub accepted : ℕ
  pub contradicts_decision : ℕ
  pub new : ℕ
  pub insufficient_evidence : ℕ
  pub notifications_sent : ℕ
  pub failed : ℕ
  pub model_calls : ℕ
  pub model_errors : ℕ
  pub model_output_rejected : ℕ
  pub refused_budget : ℕ
  pub refused_ceiling : ℕ

abbrev pub no_counts : Counts
no_counts = record {
  received = 0;
  unreadable = 0;
  vulnerabilities_skipped = 0;
  redelivered = 0;
  drift = 0;
  settled_by_rules = 0;
  settled_by_model = 0;
  accepted = 0;
  contradicts_decision = 0;
  new = 0;
  insufficient_evidence = 0;
  notifications_sent = 0;
  failed = 0;
  model_calls = 0;
  model_errors = 0;
  model_output_rejected = 0;
  refused_budget = 0;
  refused_ceiling = 0;
}

-- What the worker does to a message or to the owner, with the key of the finding in hand.
pub data Event : Type 0 where
  emitted : String → VerdictRecord → Event
  acked nacked crashed : String → Event
  acked_skipped nacked_unreadable : Event

module _ (P : Platform) where
  -- The events come newest first; `emits` says how the notifier's next calls go, and past its end
  -- they succeed.
  pub record World : Type 0 where
    pub store : Store P.Bytes
    pub memory : Memory P
    pub emits : List Bool
    pub trace : List Event
    pub counts : Counts

  -- `Worker`, without its loggers; `crash_at` is the unset state where no drill runs.
  pub record Worker : Type 0 where
    pub index : Index
    pub provenance : Provenance
    pub model : Option (Settler P)
    pub crash_at : State

abbrev pub next_emit : List Bool → Bool
next_emit [] = true
next_emit (b ∷ bs) = b

abbrev pub rest_emits : List Bool → List Bool
rest_emits [] = []
rest_emits (b ∷ bs) = bs

module _ {P : Platform} where
  abbrev pub counting : (Counts → Counts) → Run (World P) (Unit {0})
  counting f w = (done tt, record w { counts = f w.counts })

  abbrev pub logging : Event → Run (World P) (Unit {0})
  logging e w = (done tt, record w { trace = e ∷ w.trace })

  -- One call of the ledger; what it returns, an error included, is the step's value.
  abbrev pub on_store :
      {A : Type 0} → (Store P.Bytes → Result A × Store P.Bytes) → Run (World P) (Result A)
  on_store f w = (done (f w.store).0, record w { store = (f w.store).1 })
