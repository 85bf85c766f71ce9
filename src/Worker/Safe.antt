-- ===== src/Worker/Safe.antt =====
-- What is true of the bucket and the trace at every moment, whatever failed before: the ledger's
-- objects hold records, and what is acknowledged has reached the owner (internal/worker/worker.go).
use mathlib.Core.List.{Memᴰ}
use mathlib.Core.List.Memᴰ
use ai_k8s.Prelude.{
  ◌≤◌, some, ◌<>◌, ◌≡◌, refl, sym, ap, subst, ◌∙◌, ◌⊎◌, inl, inr, String, List, ◌∷◌, true, Option,
}
use ai_k8s.Text.{has_prefix}
use ai_k8s.Platform.{Platform}
use ai_k8s.Corpus.Index.{lookup}
use ai_k8s.Verdict.Record.{VerdictRecord, accepted}
use ai_k8s.Ledger.Store.{Store}
use ai_k8s.Ledger.State.{
  State, classified, notification_attempted, acknowledged, is_state, object_name, state_in,
}
use ai_k8s.Ledger.Names.{state_in-own}
use ai_k8s.Ledger.Append.{Within}
use ai_k8s.Ledger.Furthest.{level, height, FarthestOf}
use ai_k8s.Model.Ceiling.{IsReservation}
use ai_k8s.Model.Apart.{object_name-inj, reservation_name-apart, state_in-reservation_name}
use ai_k8s.Worker.World.{Event, emitted, acked}

module _ (P : Platform) where
  abbrev pub Objects : Type 0
  Objects = List (String × P.Bytes)

  -- The record of a finding, as it stands in the bucket.
  abbrev pub Recorded : String → VerdictRecord → Objects → Type 0
  Recorded k r os = lookup (object_name k classified) os ≡ some (P.marshal_record r)

  abbrev pub IsClassified : String → Objects → Type 0
  IsClassified k os = (r : VerdictRecord) × Recorded k r os

  -- The owner has the recorded verdict of the finding, unless that verdict is `accepted`.
  abbrev pub Notified : String → Objects → List Event → Type 0
  Notified k os tr =
      (r : VerdictRecord) × Recorded k r os × ((r.verdict ≡ accepted) ⊎ Memᴰ (emitted k r) tr)

  -- An object is a reservation, or a record under a name of the ledger.
  abbrev pub Named : String → P.Bytes → Type 0
  Named name body =
      IsReservation P name body
      ⊎ ((k : String) × (s : State) × (r : VerdictRecord) × (is_state s ≡ true)
          × (name ≡ object_name k s)
          × (body ≡ P.marshal_record r))

  -- The invariant: no finding is acknowledged, in the bucket or to the queue, that the owner has
  -- not been notified of.
  pub record IsSafe (os : Objects) (tr : List Event) : Type 0 where
    pub named : (name : String) (body : P.Bytes) → lookup name os ≡ some body → Named name body
    pub stored :
        (k : String) (body : P.Bytes)
        → lookup (object_name k acknowledged) os ≡ some body
        → Notified k os tr
    pub answered : (k : String) → Memᴰ (acked k) tr → Notified k os tr
    pub attempted :
        (k : String) (body : P.Bytes)
        → lookup (object_name k notification_attempted) os ≡ some body
        → IsClassified k os

  -- What may be added to the bucket.
  abbrev pub Allowed : Objects → List Event → String → P.Bytes → Type 0
  Allowed os tr name body =
      Named name body
      × ((k : String) → name ≡ object_name k acknowledged → Notified k os tr)
      × ((k : String) → name ≡ object_name k notification_attempted → IsClassified k os)

  Notified_kept :
      (Q : String → P.Bytes → Type 0) {st st' : Store P.Bytes} {tr : List Event} (k : String)
      → Within Q st st'
      → Notified k st.objects tr
      → Notified k st'.objects tr
  Notified_kept Q k w (r, recorded, told) = (r, w.kept _ _ recorded, told)

  -- The bucket may grow by what is allowed.
  pub IsSafe-Within :
      {st st' : Store P.Bytes} {tr : List Event}
      → IsSafe st.objects tr
      → Within (Allowed st.objects tr) st st'
      → IsSafe st'.objects tr
  IsSafe-Within {st} {st'} {tr} safe w = record {
    named = λ name body found. is_named name body (w.new name body found);
    stored = λ k body found. is_told k body (w.new (object_name k acknowledged) body found);
    answered = λ k m. kept k (safe.answered k m);
    attempted = λ k body found.
        is_classified k body (w.new (object_name k notification_attempted) body found);
  }
    where
      kept : (k : String) → Notified k st.objects tr → Notified k st'.objects tr
      kept k n = Notified_kept (Allowed st.objects tr) k w n

      recorded : (k : String) → IsClassified k st.objects → IsClassified k st'.objects
      recorded k (r, there) = (r, w.kept _ _ there)

      is_classified :
          (k : String) (body : P.Bytes)
          → (lookup (object_name k notification_attempted) st.objects ≡ some body)
            ⊎ Allowed st.objects tr (object_name k notification_attempted) body
          → IsClassified k st'.objects
      is_classified k body (inl old) = recorded k (safe.attempted k body old)
      is_classified k body (inr new) = recorded k (new.2 k refl)

      is_named :
          (name : String) (body : P.Bytes)
          → (lookup name st.objects ≡ some body) ⊎ Allowed st.objects tr name body
          → Named name body
      is_named name body (inl old) = safe.named name body old
      is_named name body (inr new) = new.0

      is_told :
          (k : String) (body : P.Bytes)
          → (lookup (object_name k acknowledged) st.objects ≡ some body)
            ⊎ Allowed st.objects tr (object_name k acknowledged) body
          → Notified k st'.objects tr
      is_told k body (inl old) = kept k (safe.stored k body old)
      is_told k body (inr new) = kept k (new.1 k refl)

  pub Within-map :
      (Q R : String → P.Bytes → Type 0) {st st' : Store P.Bytes}
      → ((name : String) (body : P.Bytes) → Q name body → R name body)
      → Within Q st st'
      → Within R st st'
  Within-map Q R {st} {st'} f w = record {
    kept = w.kept;
    new = λ name body found. mapped name body (w.new name body found);
  }
    where
      mapped :
          (name : String) (body : P.Bytes)
          → (lookup name st.objects ≡ some body) ⊎ Q name body
          → (lookup name st.objects ≡ some body) ⊎ R name body
      mapped name body (inl old) = inl old
      mapped name body (inr q) = inr (f name body q)

  pub reservation-Allowed :
      (os : Objects) (tr : List Event) (name : String) (body : P.Bytes)
      → IsReservation P name body
      → Allowed os tr name body
  reservation-Allowed os tr name body (now, nonce, key, e) = (
    inl (now, nonce, key, e),
    λ k same. absurd (reservation_name-apart P now nonce key k acknowledged refl (sym e ∙ same)),
    λ k same.
        absurd
          (reservation_name-apart P now nonce key k notification_attempted refl (sym e ∙ same)),
  )

  -- A record may be written under any state, the last one once the owner is notified.
  pub record-Allowed :
      (os : Objects) (tr : List Event) (k : String) (s : State) (r : VerdictRecord)
      → is_state s ≡ true
      → (s ≡ acknowledged → Notified k os tr)
      → (s ≡ notification_attempted → IsClassified k os)
      → Allowed os tr (object_name k s) (P.marshal_record r)
  record-Allowed os tr k s r proper told due = (
    inr (k, s, r, proper, refl, refl),
    λ j same.
        let (keys, states) = object_name-inj k j s acknowledged proper refl same in
        subst (λ i. Notified i os tr) keys (told states),
    λ j same.
        let (keys, states) = object_name-inj k j s notification_attempted proper refl same in
        subst (λ i. IsClassified i os) keys (due states),
  )

  -- An event that acknowledges nothing, or what the owner is notified of.
  abbrev pub Fair : Objects → List Event → Event → Type 0
  Fair os tr e = (k : String) → e ≡ acked k → Notified k os tr

  pub Notified_later :
      (os : Objects) (tr : List Event) (k : String) (e : Event)
      → Notified k os tr
      → Notified k os (e ∷ tr)
  Notified_later os tr k e (r, recorded, inl v) = (r, recorded, inl v)
  Notified_later os tr k e (r, recorded, inr m) = (r, recorded, inr (Memᴰ.tail m))

  pub IsSafe-event :
      {os : Objects} {tr : List Event} (e : Event)
      → IsSafe os tr
      → Fair os tr e
      → IsSafe os (e ∷ tr)
  IsSafe-event {os} {tr} e safe fair = record {
    named = safe.named;
    stored = λ k body found. Notified_later os tr k e (safe.stored k body found);
    answered = λ k m. Notified_later os tr k e (told k (Memᴰ.cases_cons m));
    attempted = safe.attempted;
  }
    where
      told : (k : String) → (acked k ≡ e) ⊎ Memᴰ (acked k) tr → Notified k os tr
      told k (inl same) = fair k (sym same)
      told k (inr m) = safe.answered k m

  -- What `Furthest` says of the ledger's own objects, once all names are such.
  pub record Seen (k : String) (os : Objects) (seen : Option State) : Type 0 where
    pub recorded :
        (s : State)
        → seen ≡ some s
        → (is_state s ≡ true) × ((body : P.Bytes) × (lookup (object_name k s) os ≡ some body))
    pub covers :
        (s : State) (body : P.Bytes)
        → is_state s ≡ true
        → lookup (object_name k s) os ≡ some body
        → level s ≤ height seen

  pub FarthestOf-Seen :
      {st : Store P.Bytes} {tr : List Event} (k : String) (seen : Option State)
      → IsSafe st.objects tr
      → FarthestOf k st seen
      → Seen k st.objects seen
  FarthestOf-Seen {st} k seen safe far = record {
    recorded = λ s e. own s (far.recorded s e);
    covers = far.covers;
  }
    where
      of_name :
          (s : State) (name : String) (body : P.Bytes)
          → has_prefix name (k <> "/") ≡ true
          → lookup name st.objects ≡ some body
          → state_in k name ≡ some s
          → Named name body
          → (is_state s ≡ true) × ((b : P.Bytes) × (lookup (object_name k s) st.objects ≡ some b))
      of_name s name body under found says (inl (now, nonce, key, e)) = absurd (
          state_in-reservation_name P now nonce key k s
            (subst (λ n. has_prefix n (k <> "/") ≡ true) e under)
            (subst (λ n. state_in k n ≡ some s) e says))
      of_name s name body under found says (inr (j, t, r, proper, e, _)) =
          let (keys, states) =
            state_in-own k j t s proper (subst (λ n. has_prefix n (k <> "/") ≡ true) e under)
              (subst (λ n. state_in k n ≡ some s) e says) in
          (
            ap is_state states ∙ proper,
            (body, rw (keys, states) (ap (λ n. lookup n st.objects) (sym e) ∙ found)),
          )

      own :
          (s : State)
          → ((name : String) × (has_prefix name (k <> "/") ≡ true)
              × ((body : P.Bytes) × (lookup name st.objects ≡ some body))
              × (state_in k name ≡ some s))
          → (is_state s ≡ true) × ((b : P.Bytes) × (lookup (object_name k s) st.objects ≡ some b))
      own s (name, under, (body, found), says) =
          of_name s name body under found says (safe.named name body found)

  -- What stands in the bucket under a name of the ledger is a record.
  pub ledger_body :
      {os : Objects} {tr : List Event} (k : String) (s : State) {body : P.Bytes}
      → IsSafe os tr
      → is_state s ≡ true
      → lookup (object_name k s) os ≡ some body
      → (r : VerdictRecord) × (body ≡ P.marshal_record r)
  ledger_body {os} k s {body} safe proper found = of_named (safe.named (object_name k s) body found)
    where
      of_named : Named (object_name k s) body → (r : VerdictRecord) × (body ≡ P.marshal_record r)
      of_named (inl (now, nonce, key, e)) =
          absurd (reservation_name-apart P now nonce key k s proper (sym e))
      of_named (inr (j, t, r, _, _, e)) = (r, e)
