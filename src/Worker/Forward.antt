-- ===== src/Worker/Forward.antt =====
-- How far the ledger has a finding (internal/ledger/ledger.go), through deliveries and restarts
-- (internal/worker/worker.go).
use mathlib.Core.List.{[]}
use ai_k8s.Prelude.{
  ◌≡◌, sym, ap, ◌∙◌, ◌≤◌, inl, inr, String, Option, none, some, List, ◌∷◌, ok, Eq-string,
  Result-cases, Option-cases, ok-injective, arith, ◌<>◌,
}
use ai_k8s.Platform.{Platform}
use ai_k8s.Corpus.Index.{lookup}
use ai_k8s.Ledger.Store.{Store, names_under, list}
use ai_k8s.Ledger.State.{State, furthest, furthest_of}
use ai_k8s.Ledger.Furthest.{
  height, furthest-FarthestOf, furthest_of_covers, names_under_complete, list-names,
}
use ai_k8s.Worker.World.{World, Worker}
use ai_k8s.Worker.Handle.{handle}
use ai_k8s.Worker.Deliver.{Delivery, message, restart, deliver}
use ai_k8s.Worker.Reuse.{handle-kept}

module _ (P : Platform) where
  -- Deliveries and restarts keep every object.
  pub deliver-kept :
      (wk : Worker P) (deliveries : List (Delivery P)) (w : World P) (name : String)
      (object : P.Bytes)
      → lookup name w.store.objects ≡ some object
      → lookup name (deliver P wk deliveries w).store.objects ≡ some object
  unfolding deliver
  deliver-kept wk [] w name object h = h
  deliver-kept wk (message body ∷ rest) w name object h =
      deliver-kept wk rest (handle P wk body w) name object (handle-kept P wk body w name object h)
  deliver-kept wk (restart wk' ∷ rest) w name object h = deliver-kept wk' rest _ name object h

  furthest-names :
      (key : String) (st : Store P.Bytes) (seen : Option State)
      → (furthest key st).0 ≡ ok seen
      → seen ≡ furthest_of key none (names_under (key <> "/") st.objects)
  unfolding furthest
  furthest-names key st seen h = elim (Result-cases (list (key <> "/") st).0) [
    | inr (e, bad) ↦ cc (rw bad at h)
    | inl (names, got) ↦
        ok-injective (sym (rw got at h))
        ∙ ap (furthest_of key none) (list-names (key <> "/") st got)
  ]

  -- However the deliveries between two answers of `Furthest` go, restarts, faults, crashes and other
  -- findings among them, the later answer is at least as far as the earlier one.
  pub deliver-Forward :
      (wk : Worker P) (deliveries : List (Delivery P)) (w : World P) (key : String)
      (seen seen' : Option State)
      → (furthest key w.store).0 ≡ ok seen
      → (furthest key (deliver P wk deliveries w).store).0 ≡ ok seen'
      → height seen ≤ height seen'
  deliver-Forward wk deliveries w key seen seen' before after = elim (Option-cases seen) [
    | inl nothing ↦ rw nothing (omega arith)
    | inr (s, found) ↦
        let far = furthest-FarthestOf key w.store seen before in
        let (name, under, (body, there), says) = far.recorded s found in
        let later = (deliver P wk deliveries w).store in
        let listed =
          names_under_complete (key <> "/") later.objects name under
            (deliver-kept wk deliveries w name body there) in
        let covered = furthest_of_covers key none (names_under (key <> "/") later.objects) listed in
        let reached = furthest-names key later seen' after in
        rw (found, reached) (rw says at covered)
  ]
