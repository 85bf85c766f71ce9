-- ===== src/Model/Ceiling.antt =====
-- The daily ceiling (internal/model/spend.go): what a granted and a refused reservation mean, and
-- what a reservation can do to the bucket.
use mathlib.Core.List.{[]}
use ai_k8s.Prelude.{
  ◌<>◌, ◌≡◌, eq_iff, refl, sym, ap, subst, ◌∙◌, ◌⊎◌, inl, inr, String, List, ◌∷◌, Bool, true, false,
  none, Bool-cases, Option-cases, Result-cases, Result, ok, err, ℕ, ◌==◌, Eq-string,
}
use ai_k8s.Platform.{Platform}
use ai_k8s.Corpus.Index.{lookup}
use ai_k8s.Ledger.Store.{Store, create, list, read}
use ai_k8s.Ledger.Append.{
  Within, Within-of_eq, Within-refl, Within-trans, Within-of_Grows, create-Created, list-objects,
  read-objects,
}
use ai_k8s.Model.Spend.{
  Instant, Spend, load_from, load, reservation_name, open_day, record_reservation, reserve_today,
  reserve,
}

abbrev total_in {ℓ} : {F : Type ℓ} → F → Result (Bool × F) → F
total_in t (ok (b, u)) = u
total_in t (err e) = t

abbrev granted_in {ℓ} : {F : Type ℓ} → Result (Bool × F) → Bool
granted_in (ok (b, u)) = b
granted_in (err e) = false

module _ (P : Platform) where
  open P use {Bytes, Float, add_float, gt_float, marshal_reservation, unmarshal_reservation}

  load_from-objects :
      (total : Float) (names : List String) (st : Store Bytes)
      → (load_from P total names st).1.objects ≡ st.objects
  unfolding load_from
  load_from-objects total [] st = refl
  load_from-objects total (name ∷ names) st = elim (Result-cases (read name st).0) [
    | inr (e, bad) ↦ rw (bad, load_from) (read-objects name st)
    | inl (body, got) ↦ elim (Result-cases (unmarshal_reservation body)) [
      | inr (e, bad) ↦ rw (got, bad, load_from) (read-objects name st)
      | inl (r, good) ↦
          rw (got, good, load_from)
            (load_from-objects (add_float total r.usd) names (read name st).1
              ∙ read-objects name st)
    ]
  ]

  load-objects : (day : String) (st : Store Bytes) → (load P day st).1.objects ≡ st.objects
  unfolding load
  load-objects day st = elim (Result-cases (list ("spend/" <> (day <> "/")) st).0) [
    | inr (e, bad) ↦ rw (bad, load) (list-objects _ st)
    | inl (names, got) ↦ rw (got, load) (load_from-objects _ names _ ∙ list-objects _ st)
  ]

  -- What the day has reserved so far: the total in memory, or on a new day what the bucket adds up to.
  abbrev pub DayTotal : Instant → Spend P → Store Bytes → Float → Type 0
  DayTotal now s st t =
      ((now.day ≡ s.day) × (t ≡ s.total))
      ⊎ (((now.day == s.day) ≡ false) × ((load P now.day st).0 ≡ ok t))

  -- Opening the day reads, and writes nothing; it leaves the ceiling, and where it succeeds the
  -- total in memory is that of the day.
  record Opened (now : Instant) (s : Spend P) (st : Store Bytes) (s' : Spend P) (st' : Store Bytes)
      : Type 0 where
    objects : st'.objects ≡ st.objects
    ceiling : s'.ceiling ≡ s.ceiling

  open_day-Opened :
      (now : Instant) (s : Spend P) (st : Store Bytes)
      → let (r, (s', st')) = open_day P now s st in
        Opened now s st s' st' × (r ≡ ok tt → (s'.day ≡ now.day) × DayTotal now s st s'.total)
  unfolding open_day
  open_day-Opened now s st = elim (Bool-cases (now.day == s.day)) [
    | inl same ↦ rw same (
      record { objects = refl; ceiling = refl },
      λ _. let e = (eq_iff now.day s.day).0 same in (sym e, inl (e, refl)),
    )
    | inr differ ↦ elim (Result-cases (load P now.day st).0) [
      | inr (e, bad) ↦
          rw (differ, bad, open_day)
            (record { objects = load-objects now.day st; ceiling = refl }, λ h. cc h)
      | inl (t, got) ↦
          rw (differ, got, open_day)
            (
              record { objects = load-objects now.day st; ceiling = refl },
              λ _. (refl, inr (refl, refl)),
            )
    ]
  ]

  -- The name is one that a reservation takes.
  abbrev pub IsReservation : String → Bytes → Type 0
  IsReservation name body =
      (now : Instant) × (nonce : List ℕ) × (key : String) × (name
        ≡ reservation_name P now nonce key)

  -- A reservation that is granted: the total stays within the ceiling, and a new object records it.
  pub record Granted (now : Instant) (key : String) (usd : Float) (s : Spend P) (st : Store Bytes)
      (s' : Spend P) (st' : Store Bytes) (total : Float) : Type 0 where
    pub spent : Float
    pub day_total : DayTotal now s st spent
    pub sum : total ≡ add_float spent usd
    pub within : gt_float total s.ceiling ≡ false
    pub ceiling : s'.ceiling ≡ s.ceiling
    pub remembered : s'.total ≡ total
    pub today : s'.day ≡ now.day
    pub nonce : List ℕ
    pub body : Bytes
    pub encoded : marshal_reservation (record { usd = usd; key = key; at = now.stamp }) ≡ ok body
    pub free : lookup (reservation_name P now nonce key) st.objects ≡ none
    pub stored : st'.objects ≡ (reservation_name P now nonce key, body) ∷ st.objects

  record_reservation-Within :
      (now : Instant) (key : String) (usd : Float) (body : Bytes) (s : Spend P) (st : Store Bytes)
      → Within IsReservation st (record_reservation P now key usd body s st).1.1
  unfolding record_reservation
  record_reservation-Within now key usd body s st = elim (Option-cases now.nonce) [
    | inl missing ↦ rw (missing, record_reservation) (Within-refl IsReservation st)
    | inr (nonce, drawn) ↦
        let name = reservation_name P now nonce key in
        let grown =
          Within-of_Grows IsReservation name body (now, nonce, key, refl)
            (create-Created name body st).0 in
        elim (Result-cases (create name body st).0) [
          | inl (_, done) ↦ rw (drawn, done, record_reservation) grown
          | inr (e, bad) ↦ rw (drawn, bad, record_reservation) grown
        ]
  ]

  record_reservation-Granted :
      (now : Instant) (key : String) (usd : Float) (body : Bytes) (s : Spend P) (st : Store Bytes)
      {total : Float}
      → s.day ≡ now.day
      → gt_float (add_float s.total usd) s.ceiling ≡ false
      → marshal_reservation (record { usd = usd; key = key; at = now.stamp }) ≡ ok body
      → (record_reservation P now key usd body s st).0 ≡ ok (true, total)
      → let (r, (s', st')) = record_reservation P now key usd body s st in
        Granted now key usd s st s' st' total
  unfolding record_reservation reservation_name
  record_reservation-Granted now key usd body s st {total} today within encoded h =
      elim (Option-cases now.nonce) [
        | inl missing ↦ cc (rw (missing, record_reservation) at h)
        | inr (nonce, drawn) ↦
            let name = reservation_name P now nonce key in
            let made = create-Created name body st in
            elim (Result-cases (create name body st).0) [
              | inr (e, bad) ↦ cc (rw (drawn, bad, record_reservation) at h)
              | inl (_, done) ↦
                  let e : add_float s.total usd ≡ total =
                    ap (λ (r : Result (Bool × Float)). total_in s.total r)
                      (rw (drawn, done, record_reservation) at h) in
                  rw (drawn, done, record_reservation)
                    (record {
                      spent = s.total;
                      day_total = inl (sym today, refl);
                      sum = sym e;
                      within = subst (λ t. gt_float t s.ceiling ≡ false) e within;
                      ceiling = refl;
                      remembered = e;
                      today = today;
                      nonce = nonce;
                      body = body;
                      encoded = encoded;
                      free = (made.1 done).0;
                      stored = (made.1 done).1;
                    })
            ]
      ]

  reserve_today-Within :
      (now : Instant) (key : String) (usd : Float) (s : Spend P) (st : Store Bytes)
      → Within IsReservation st (reserve_today P now key usd s st).1.1
  unfolding reserve_today
  reserve_today-Within now key usd s st =
      elim (Bool-cases (gt_float (add_float s.total usd) s.ceiling)) [
        | inl over ↦ rw over (Within-refl IsReservation st)
        | inr fits ↦
            elim (Result-cases
              (marshal_reservation (record { usd = usd; key = key; at = now.stamp }))) [
                | inr (e, bad) ↦ rw (fits, bad, reserve_today) (Within-refl IsReservation st)
                | inl (body, good) ↦
                    rw (fits, good, reserve_today) (record_reservation-Within now key usd body s st)
              ]
      ]

  reserve_today-Granted :
      (now : Instant) (key : String) (usd : Float) (s : Spend P) (st : Store Bytes) {total : Float}
      → s.day ≡ now.day
      → (reserve_today P now key usd s st).0 ≡ ok (true, total)
      → let (r, (s', st')) = reserve_today P now key usd s st in
        Granted now key usd s st s' st' total
  unfolding reserve_today
  reserve_today-Granted now key usd s st today h =
      elim (Bool-cases (gt_float (add_float s.total usd) s.ceiling)) [
        | inl over ↦ cc (ap granted_in (rw over at h))
        | inr fits ↦
            elim (Result-cases
              (marshal_reservation (record { usd = usd; key = key; at = now.stamp }))) [
                | inr (e, bad) ↦ cc (rw (fits, bad, reserve_today) at h)
                | inl (body, good) ↦
                    rw (fits, good, reserve_today)
                      (record_reservation-Granted now key usd body s st today fits good
                        (rw (fits, good, reserve_today) at h))
              ]
      ]

  -- A reservation writes at most one object into the bucket, under a reservation's name.
  pub reserve-Within :
      (now : Instant) (key : String) (usd : Float) (s : Spend P) (st : Store Bytes)
      → Within IsReservation st (reserve P now key usd s st).1.1
  unfolding reserve
  reserve-Within now key usd s st =
      let opened = Within-of_eq IsReservation (open_day-Opened now s st).0.objects in
      elim (Result-cases (open_day P now s st).0) [
        | inr (e, bad) ↦ rw (bad, reserve) opened
        | inl (_, good) ↦
            rw (good, reserve)
              (Within-trans IsReservation opened (reserve_today-Within now key usd _ _))
      ]

  spent-eq :
      (now : Instant) (s : Spend P) (st : Store Bytes) {t : Float}
      → s.day ≡ now.day
      → DayTotal now s st t
      → t ≡ s.total
  spent-eq now s st today (inl (_, e)) = e
  spent-eq now s st today (inr (differ, _)) = cc ((eq_iff now.day s.day).1 (sym today), differ)

  from_Granted :
      {now : Instant} {key : String} {usd : Float} {s s₁ s' : Spend P} {st st₁ st' : Store Bytes}
      {total : Float}
      → Opened now s st s₁ st₁
      → (s₁.day ≡ now.day) × DayTotal now s st s₁.total
      → Granted now key usd s₁ st₁ s' st' total
      → Granted now key usd s st s' st' total
  from_Granted {now} {key} {usd} {s₁ = s₁} {st₁ = st₁} {total = total} o known g = record {
    spent = s₁.total;
    day_total = known.1;
    sum = g.sum ∙ ap (λ (t : Float). add_float t usd) (spent-eq now s₁ st₁ known.0 g.day_total);
    within = subst (λ c. gt_float total c ≡ false) o.ceiling g.within;
    ceiling = g.ceiling ∙ o.ceiling;
    remembered = g.remembered;
    today = g.today;
    nonce = g.nonce;
    body = g.body;
    encoded = g.encoded;
    free = ap (lookup _) (sym o.objects) ∙ g.free;
    stored = g.stored ∙ ap (λ l. (reservation_name P now g.nonce key, g.body) ∷ l) o.objects;
  }

  pub reserve-Granted :
      (now : Instant) (key : String) (usd : Float) (s : Spend P) (st : Store Bytes) (total : Float)
      → (reserve P now key usd s st).0 ≡ ok (true, total)
      → let (r, (s', st')) = reserve P now key usd s st in Granted now key usd s st s' st' total
  unfolding reserve
  reserve-Granted now key usd s st total h =
      let opened = open_day-Opened now s st in
      elim (Result-cases (open_day P now s st).0) [
        | inr (e, bad) ↦ cc (rw (bad, reserve) at h)
        | inl (_, good) ↦
            let g =
              reserve_today-Granted now key usd _ _ (opened.1 good).0 (rw (good, reserve) at h) in
            rw (good, reserve) (from_Granted opened.0 (opened.1 good) g)
      ]
