-- ===== src/Worker/Deliver.antt =====
-- Deliveries and restarts, as the subscription and the cluster bring them about
-- (cmd/triage-worker/main.go).
use mathlib.Core.List.{[]}
use ai_k8s.Prelude.{List, ◌∷◌, Eq-string}
use ai_k8s.Platform.{Platform}
use ai_k8s.Worker.World.{World, Worker, no_counts}
use ai_k8s.Worker.Handle.{handle}

module _ (P : Platform) where
  -- What the surroundings do: deliver a body, or start a process anew, with a worker of their choice.
  pub data Delivery : Type 0 where
    message : P.Bytes → Delivery
    restart : Worker P → Delivery

  -- A new process: the bucket and the past stay, the counters and the day's spend in memory do not.
  abbrev pub restarted : World P → World P
  restarted w = record w {
    memory = record (w.memory) { spend = record (w.memory.spend) { day = ""; total = P.of_ℕ 0 } };
    counts = no_counts;
  }

  unfoldable pub deliver : Worker P → List Delivery → World P → World P
  deliver wk [] w = w
  deliver wk (message body ∷ rest) w = deliver wk rest (handle P wk body w)
  deliver wk (restart wk' ∷ rest) w = deliver wk' rest (restarted w)
