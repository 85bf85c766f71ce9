-- ===== src/Worker/Grounds.antt =====
-- What a contradiction of the worker stands on, where its corpus is a compiled one.
use mathlib.Core.List.{Memᴰ, []}
use mathlib.Core.List.Memᴰ
use ai_k8s.Prelude.{
  ◌≡◌, sym, subst, inl, inr, String, true, Option, some, List, ok, ◌∷◌, All, Error,
}
use ai_k8s.Text.{has_prefix}
use ai_k8s.Platform.{Platform}
use ai_k8s.Scc.{Envelope}
use ai_k8s.Corpus.Index.{control, Entry, Index, lookup_entry}
use ai_k8s.Corpus.Load.Files.{Files}
use ai_k8s.Corpus.Load.Compile.{Sources, compile}
use ai_k8s.Corpus.Load.Keeps.{IsBuilt, IsStanding}
use ai_k8s.Corpus.Load.Compiled.{compile-IsCompiled}
use ai_k8s.Verdict.Record.{contradicts_decision, Citation, Provenance}
use ai_k8s.Verdict.Valid.{HasDigest}
use ai_k8s.Ledger.Store.{Store}
use ai_k8s.Model.Settle.{Settler, Memory}
use ai_k8s.Model.Resources.{resources_of}
use ai_k8s.Model.Anchor.{Anchors}
use ai_k8s.Worker.Decide.{Decision, decide}
use ai_k8s.Worker.Decisions.{decide-contradicts}

-- A cited control, and a full resource name of it that begins a resource of the finding.
pub record StandsOnControl (idx : Index) (env : Envelope) (d : Decision) : Type 0 where
  pub citation : Citation
  pub cited : Memᴰ citation d.verdict_record.citations
  pub entry : Entry
  pub found : lookup_entry idx citation.id ≡ some entry
  pub enforced : entry.kind ≡ control
  pub prefix : String
  pub listed : Memᴰ prefix entry.applies_to
  pub full : has_prefix prefix "//" ≡ true
  pub name : String
  pub named : Memᴰ name (resources_of env.finding)
  pub begins : has_prefix name prefix ≡ true

All-at : {A : Type 0} (p : A → Type 0) (xs : List A) (x : A) → All p xs → Memᴰ x xs → p x
All-at p [] x h m = absurd (Memᴰ.not-nil m)
All-at p (y ∷ ys) x h (Memᴰ.head e) = subst p (sym e) h.0
All-at p (y ∷ ys) x h (Memᴰ.tail m) = All-at p ys x h.1 m

anchor-StandsOnControl :
    (idx : Index) (env : Envelope) (d : Decision)
    → IsBuilt idx
    → Anchors d.verdict_record.citations idx (resources_of env.finding)
    → StandsOnControl idx env d
anchor-StandsOnControl idx env d b a = by_kind (b.standing a.citation.id a.entry a.found)
  where
    by_kind : IsStanding a.entry → StandsOnControl idx env d
    by_kind (inr (off, nothing)) = absurd (Memᴰ.not-nil (subst (Memᴰ a.prefix) nothing a.listed))
    by_kind (inl (enforced, some_named, full)) = record {
      citation = a.citation;
      cited = a.cited;
      entry = a.entry;
      found = a.found;
      enforced = enforced;
      prefix = a.prefix;
      listed = a.listed;
      full = All-at _ a.entry.applies_to a.prefix full a.listed;
      name = a.name;
      named = a.named;
      begins = a.begins;
    }

-- On a corpus that `Compile` returned, a decision is `contradicts_decision` only with a citation of a
-- control, not of any other entry, and one of the full resource names that this control applies to
-- begins a resource which the finding names; the envelope has no digest or one that is not blank.
pub decide-StandsOnControl :
    (files : Files) (sources : Sources) (P : Platform) (s : Settler P) (env : Envelope)
    (e : Option Error) (prov : Provenance) (m : Memory P) (st : Store P.Bytes) (d : Decision)
    → HasDigest env
    → compile files sources ≡ ok s.index
    → (decide P s.index (some s) env e prov m st).0 ≡ ok d
    → d.verdict_record.verdict ≡ contradicts_decision
    → StandsOnControl s.index env d
decide-StandsOnControl files sources P s env e prov m st d digest built h c =
    let (parsed, unmatched, (s', same, cites, anchors)) =
      decide-contradicts P s.index env digest (some s) e prov m st d h c in
    anchor-StandsOnControl s.index env d (compile-IsCompiled files sources s.index built).built (
      subst (λ t. Anchors d.verdict_record.citations t.index (resources_of env.finding))
        (one s' same) anchors)
  where
    one : (s' : Settler P) → some s ≡ some s' → s' ≡ s
    one s' same = cc same
