-- ===== src/Worker/Deciding.antt =====
-- What `Decide` leaves in the bucket.
use ai_k8s.Prelude.{inl, inr, Option, Result, ok, err, Error}
use ai_k8s.Platform.{Platform}
use ai_k8s.Scc.{Envelope}
use ai_k8s.Corpus.Index.{Index}
use ai_k8s.Verdict.Record.{Provenance}
use ai_k8s.Ledger.Store.{Store}
use ai_k8s.Ledger.Append.{Within, Within-refl}
use ai_k8s.Model.Ceiling.{IsReservation}
use ai_k8s.Model.Settle.{Outcome, Settler, Memory}
use ai_k8s.Model.Settling.{settle-Within}
use ai_k8s.Worker.Decide.{rules_record, after_settle, decide_by, decide}
use ai_k8s.Worker.Half.{consult_cases}

module _ (P : Platform) (idx : Index) (env : Envelope) where
  after_settle-Within :
      (prov : Provenance) (st : Store P.Bytes) (res : Result Outcome × (Memory P × Store P.Bytes))
      → Within (IsReservation P) st res.1.1
      → Within (IsReservation P) st (after_settle P env prov res).1.1
  unfolding after_settle
  after_settle-Within prov st (err e, rest) w = w
  after_settle-Within prov st (ok o, rest) w = w

  -- All that a decision leaves in the bucket is a reservation.
  pub decide-Within :
      (model : Option (Settler P)) (e : Option Error) (prov : Provenance) (m : Memory P)
      (st : Store P.Bytes)
      → Within (IsReservation P) st (decide P idx model env e prov m st).1.1
  unfolding decide decide_by
  decide-Within model e prov m st =
      elim (consult_cases P model e (rules_record idx env e prov).verdict) [
        | inl alone ↦ rw (alone, decide_by) (Within-refl (IsReservation P) st)
        | inr (s, chosen, there, parsed, unmatched) ↦
            rw (chosen, decide_by) (after_settle-Within prov st _ (settle-Within P s env prov m st))
      ]
