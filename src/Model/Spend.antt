-- ===== src/Model/Spend.antt =====
-- internal/model/spend.go: the daily ceiling, reserved in the ledger bucket before each call.
use mathlib.Core.List.{[]}
use ai_k8s.Prelude.{
  ℕ, ◌<>◌, String, Bool, true, false, Option, none, some, List, ◌∷◌, if◌then◌else◌, ◌==◌, Eq-string,
  Result, ok, err, failed, wrap,
}
use ai_k8s.Text.Format.{decimal, hex}
use ai_k8s.Platform.{Platform}
use ai_k8s.Ledger.Store.{Store, create, list, read}

-- One reading of the clock, in the three forms that `Reserve` asks for, and the six random bytes,
-- or `none` where rand.Read fails.
pub record Instant : Type 0 where
  pub day : String
  pub stamp : String
  pub unix_nano : ℕ
  pub nonce : Option (List ℕ)

module _ (P : Platform) where
  open P use {
    Bytes, Float, marshal_reservation, unmarshal_reservation, sum_prefix, of_ℕ, add_float,
    mul_float, per_million, gt_float,
  }

  pub record Prices : Type 0 where
    pub input_per_million : Float
    pub output_per_million : Float

  -- `Prices.Cost`
  unfoldable pub cost : Prices → ℕ → ℕ → Float
  cost p input output =
      add_float (per_million (mul_float (of_ℕ input) p.input_per_million))
        (per_million (mul_float (of_ℕ output) p.output_per_million))

  -- `Spend`: the ceiling, and the day whose total is in memory.
  pub record Spend : Type 0 where
    pub ceiling : Float
    pub day : String
    pub total : Float

  -- The loop of `load`.
  unfoldable pub load_from : Float → List String → Store Bytes → Result Float × Store Bytes
  load_from total [] st = (ok total, st)
  load_from total (name ∷ names) st =
      let (body, st') = read name st in
      elim body [
        | err e ↦ (err (wrap "read today's model spend" e), st')
        | ok b ↦ elim (unmarshal_reservation b) [
          | err e ↦ (err (wrap ("parse spend reservation " <> name) e), st')
          | ok r ↦ load_from (add_float total r.usd) names st'
        ]
      ]

  -- `load`
  unfoldable pub load : String → Store Bytes → Result Float × Store Bytes
  unfolding load_from
  load day st =
      let (names, st') = list ("spend/" <> (day <> "/")) st in
      elim names [
        | err e ↦ (err (wrap "read today's model spend" e), st')
        | ok ns ↦ load_from (of_ℕ 0) ns st'
      ]

  unfoldable pub reservation_name : Instant → List ℕ → String → String
  reservation_name now nonce key =
      "spend/"
      <> (now.day
          <> ("/"
              <> (hex (sum_prefix key)
                  <> ("-" <> (decimal now.unix_nano <> ("-" <> (hex nonce <> ".json")))))))

  -- What a call of `Reserve` returns, with the state that it leaves: an error, or `ok, total`.
  abbrev pub Reserved : Type 0
  Reserved = Result (Bool × Float) × (Spend × Store Bytes)

  -- The total of the day in memory, read from the store where the day is a new one.
  unfoldable pub open_day :
      Instant → Spend → Store Bytes → Result (Unit {0}) × (Spend × Store Bytes)
  open_day now s st =
      if now.day == s.day
      then (ok tt, (s, st))
      else (let (total, st') = load now.day st in
          elim total [
            | err e ↦ (err e, (s, st'))
            | ok t ↦ (ok tt, (record s { day = now.day; total = t }, st'))
          ])

  -- The create of the reservation, and the total that it moves.
  unfoldable pub record_reservation :
      Instant → String → Float → Bytes → Spend → Store Bytes → Reserved
  record_reservation now key usd body s st = elim now.nonce [
    | none ↦ (err (failed "name the spend reservation"), (s, st))
    | some nonce ↦
        let (r, st') = create (reservation_name now nonce key) body st in
        elim r [
          | err e ↦ (err (wrap "reserve model spend" e), (s, st'))
          | ok _ ↦
              let total = add_float s.total usd in
              (ok (true, total), (record s { total = total }, st'))
        ]
  ]

  -- `Reserve` once the day is open: the ceiling, then the reservation.
  unfoldable pub reserve_today : Instant → String → Float → Spend → Store Bytes → Reserved
  reserve_today now key usd s st =
      if gt_float (add_float s.total usd) s.ceiling
      then (ok (false, s.total), (s, st))
      else elim (marshal_reservation (record { usd = usd; key = key; at = now.stamp })) [
        | err e ↦ (err (wrap "encode the spend reservation" e), (s, st))
        | ok body ↦ record_reservation now key usd body s st
      ]

  -- `Spend.Reserve`
  unfoldable pub reserve : Instant → String → Float → Spend → Store Bytes → Reserved
  reserve now key usd s st =
      let (opened, (s', st')) = open_day now s st in
      elim opened [ err e ↦ (err e, (s', st')) | ok _ ↦ reserve_today now key usd s' st' ]
