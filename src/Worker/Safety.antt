-- ===== src/Worker/Safety.antt =====
-- `Handle` (internal/worker/worker.go) as a whole: whatever fails, crashes or comes again, nothing
-- is acknowledged that the owner has not been notified of.
use mathlib.Core.List.{[], Memᴰ}
use mathlib.Core.List.Memᴰ
use ai_k8s.Prelude.{
  ◌≡◌, refl, sym, ap, subst, ◌∙◌, String, List, true, Option, none, some, Result, ok, err,
}
use ai_k8s.Platform.{Platform, IsLawful}
use ai_k8s.Scc.{Envelope}
use ai_k8s.Corpus.Index.{lookup}
use ai_k8s.Ledger.Store.{Store}
use ai_k8s.Ledger.State.{
  State, received, classified, notification_attempted, acknowledged, other, object_name, read_state,
}
use ai_k8s.Ledger.Append.{read-objects}
use ai_k8s.Ledger.Furthest.{furthest-FarthestOf, furthest-objects}
use ai_k8s.Worker.Flow.{Flow, Ends, bind-Ends}
use ai_k8s.Worker.World.{World, Worker}
use ai_k8s.Worker.Safe.{IsSafe, Seen, FarthestOf-Seen}
use ai_k8s.Worker.Steps.{Safe}
use ai_k8s.Worker.Handle.{resume, resumed, note_drift, is_acknowledged}

module _ (P : Platform) (law : IsLawful P) (wk : Worker P) where
  -- What `resume` leaves: the invariant, and the truth about the finding's states.
  abbrev pub Resumed : String → Option State → World P → Type 0
  Resumed k seen w = Safe P wk w × Seen P k w.store.objects seen

  note_drift-Ends :
      (M : World P → Type 0) (env : Envelope) (previous : Result P.Bytes) (w : World P)
      → ((w' : World P) → w'.store ≡ w.store → w'.trace ≡ w.trace → M w')
      → Ends (λ _. M) (Safe P wk) (note_drift P wk env previous w)
  unfolding note_drift
  note_drift-Ends M env (ok previous) w m = m _ refl refl
  note_drift-Ends M env (err e) w m = m w refl refl

  Resumed-same :
      (k : String) (seen : Option State) (w w' : World P)
      → w'.store.objects ≡ w.store.objects
      → w'.trace ≡ w.trace
      → Resumed k seen w
      → Resumed k seen w'
  Resumed-same k seen w w' objects trace (safe, says) = (
    subst (λ os. IsSafe P os w'.trace) (sym objects)
        (subst (λ tr. IsSafe P w.store.objects tr) (sym trace) safe),
    subst (λ os. Seen P k os seen) (sym objects) says,
  )

  resumed-Ends :
      (k : String) (env : Envelope) (far : Result (Option State)) (w : World P)
      → Safe P wk w
      → ((seen : Option State) → far ≡ ok seen → Seen P k w.store.objects seen)
      → Ends (Resumed k) (Safe P wk) (resumed P wk k env far w)
  unfolding resumed read_state
  resumed-Ends k env (err e) w safe says = safe
  resumed-Ends k env (ok none) w safe says = (safe, says none refl)
  resumed-Ends k env (ok (some s)) w safe says =
      bind-Ends (Safe P wk) (λ _. Resumed k (some s)) (Resumed k) _ _
        (note_drift-Ends (Resumed k (some s)) env _ _ (λ w' stored traced.
          Resumed-same k (some s) w w'
            (ap (λ (st : Store P.Bytes). st.objects) stored
              ∙ read-objects (object_name k received) w.store)
            traced (safe, says (some s) refl)))
        (λ _ w' m. m)

  pub resume-Ends :
      (k : String) (env : Envelope) (w : World P)
      → Safe P wk w
      → Ends (Resumed k) (Safe P wk) (resume P wk k env w)
  unfolding resume
  resume-Ends k env w safe =
      let same = furthest-objects k w.store in
      resumed-Ends k env _ _ (subst (λ os. IsSafe P os w.trace) (sym same) safe) (λ seen got.
        subst (λ os. Seen P k os seen) (sym same)
          (FarthestOf-Seen P k seen safe (furthest-FarthestOf k w.store seen got)))

  pub acknowledged_of :
      (seen : Option State) → is_acknowledged seen ≡ true → seen ≡ some acknowledged
  acknowledged_of none h = cc
  acknowledged_of (some received) h = cc
  acknowledged_of (some classified) h = cc
  acknowledged_of (some notification_attempted) h = cc
  acknowledged_of (some acknowledged) h = refl
  acknowledged_of (some (other s)) h = cc

module _ (P : Platform) (law : IsLawful P) where
  pub empty-Safe : (wk : Worker P) (w : World P) → w.store.objects ≡ [] → w.trace ≡ [] → Safe P wk w
  unfolding lookup
  empty-Safe wk w objects trace = record {
    named = λ name body found. cc (rw objects at found);
    stored = λ k body found. cc (rw objects at found);
    answered = λ k m. absurd (Memᴰ.not-nil (rw trace at m));
    attempted = λ k body found. cc (rw objects at found);
  }
