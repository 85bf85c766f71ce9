-- ===== src/Model/Apart.antt =====
-- The two kinds of object in the bucket, the ledger's (internal/ledger/ledger.go) and the spend
-- reservations (internal/model/spend.go), never take each other's names.
use Prim.Native.Char.{Char}
use Prim.Native.String.{[] as nil, ◌∷◌}
use text.Mathlib.TextLemmas.{append_assoc, nil-append, cons-append}
use ai_k8s.Prelude.{
  some, ℕ, ◌<>◌, ◌≡◌, ◌≢◌, subst, refl, sym, ap, ◌∙◌, ◌⊎◌, inl, inr, String, Bool, true, false,
  ◌||◌, List, arith, Bool-cases, Option-cases, ◌==◌, Eq-string, eq_iff,
}
use ai_k8s.Text.{has_char, strip_suffix, trim_suffix, trim_prefix, has_prefix}
use ai_k8s.Text.Format.{decimal, hex}
use ai_k8s.Text.Chars.{has_char-append, decimal-slash, hex-slash}
use ai_k8s.Platform.{Platform}
use ai_k8s.Model.Spend.{Instant, reservation_name}
use ai_k8s.Ledger.State.{
  State, received, classified, notification_attempted, acknowledged, other, state_text, state_of,
  is_state, object_name, state_in,
}
use ai_k8s.Ledger.Names.{last_slash, file_name, file_name_plain, under_key, state_in_plain}

-- A name of the ledger is of one key and one state.
pub object_name-inj :
    (k j : String) (s t : State)
    → is_state s ≡ true
    → is_state t ≡ true
    → object_name k s ≡ object_name j t
    → (k ≡ j) × (s ≡ t)
unfolding object_name
object_name-inj k j s t hs ht e =
    let ps = file_name_plain s hs in
    let pt = file_name_plain t ht in
    let (keys, files) = last_slash k j (file_name s) (file_name t) ps.0 pt.0 e in
    (keys, sym ps.1 ∙ ap (λ (f : String). state_of (trim_suffix f ".json")) files ∙ pt.1)

text_cases : (s : String) → (s ≡ "") ⊎ ((c : Char) × (rest : String) × (s ≡ c ∷ rest))
text_cases nil = inl refl
text_cases (c ∷ rest) = inr (c, rest, refl)

state_of_sound : (s : String) → is_state (state_of s) ≡ true → s ≡ state_text (state_of s)
unfolding state_of
state_of_sound s h = elim (Bool-cases (s == "received")) [
  | inl e ↦ rw e ((eq_iff s "received").0 e)
  | inr e ↦ elim (Bool-cases (s == "classified")) [
    | inl f ↦ rw (e, f) ((eq_iff s "classified").0 f)
    | inr f ↦ elim (Bool-cases (s == "notification_attempted")) [
      | inl g ↦ rw (e, f, g) ((eq_iff s "notification_attempted").0 g)
      | inr g ↦ elim (Bool-cases (s == "acknowledged")) [
        | inl i ↦ rw (e, f, g, i) ((eq_iff s "acknowledged").0 i)
        | inr i ↦ rw (e, f, g, i) refl
      ]
    ]
  ]
]

strip_suffix_sound : (s p t : String) → strip_suffix s p ≡ some t → s ≡ t <> p
unfolding strip_suffix
strip_suffix_sound nil p t h = elim (text_cases p) [
  | inl e ↦ cc (rw e at h, nil-append p)
  | inr (c, rest, e) ↦ cc (rw e at h)
]
strip_suffix_sound (c ∷ s) p t h = elim (Bool-cases ((c ∷ s) == p)) [
  | inl same ↦ cc (rw same at h, (eq_iff (c ∷ s) p).0 same, nil-append p)
  | inr differ ↦ elim (Option-cases (strip_suffix s p)) [
    | inl missing ↦ cc (rw (differ, missing) at h)
    | inr (u, found) ↦
        cc (rw (differ, found) at h, strip_suffix_sound s p u found, cons-append c u p)
  ]
]

trim_suffix_sound : (s p : String) → (s ≡ trim_suffix s p) ⊎ (s ≡ trim_suffix s p <> p)
unfolding trim_suffix
trim_suffix_sound s p = elim (Option-cases (strip_suffix s p)) [
  | inl missing ↦ rw missing (inl refl)
  | inr (t, found) ↦ rw found (inr (strip_suffix_sound s p t found))
]

-- A minus stands in the last part of every reservation's name, and in no name of the ledger.
state_text_minus : (s : State) → is_state s ≡ true → has_char b'-' (state_text s) ≡ false
unfolding has_char
state_text_minus received h = refl
state_text_minus classified h = refl
state_text_minus notification_attempted h = refl
state_text_minus acknowledged h = refl
state_text_minus (other s) h = cc

file_name_minus : (s : State) → is_state s ≡ true → has_char b'-' (file_name s) ≡ false
file_name_minus s h =
    has_char-append b'-' (state_text s) ".json"
    ∙ rw (state_text_minus s h) (unfold has_char in refl)

abbrev reservation_file : Instant → List ℕ → List ℕ → String
reservation_file now sum nonce =
    hex sum <> ("-" <> (decimal now.unix_nano <> ("-" <> (hex nonce <> ".json"))))

reservation_file_slash :
    (now : Instant) (sum nonce : List ℕ) → has_char b'/' (reservation_file now sum nonce) ≡ false
reservation_file_slash now sum nonce =
    rw (has_char-append, hex-slash, has_char-append, has_char-append, decimal-slash)
      (rw (has_char-append, has_char-append, hex-slash) (unfold has_char in refl))

minus_first : (b : Bool) → (has_char b'-' "-" || b) ≡ true
unfolding has_char
minus_first b = refl

reservation_file_minus :
    (now : Instant) (sum nonce : List ℕ) → has_char b'-' (reservation_file now sum nonce) ≡ true
reservation_file_minus now sum nonce =
    let tail = decimal now.unix_nano <> ("-" <> (hex nonce <> ".json")) in
    let led : has_char b'-' ("-" <> tail) ≡ true =
      has_char-append b'-' "-" tail ∙ minus_first (has_char b'-' tail) in
    has_char-append b'-' (hex sum) ("-" <> tail) ∙ rw led (or_true (has_char b'-' (hex sum)))
  where
    or_true : (b : Bool) → (b || true) ≡ true
    or_true b = ground arith

-- What a name says is what its last part says.
pub state_in_says :
    (k name : String) (s : State)
    → state_in k name ≡ some s
    → (state_of (trim_suffix (trim_prefix name (k <> "/")) ".json") ≡ s) × (is_state s ≡ true)
unfolding state_in
state_in_says k name s h =
    let plain = state_in_plain k name h in
    let here = state_of (trim_suffix (trim_prefix name (k <> "/")) ".json") in
    elim (Bool-cases (is_state here)) [
      | inr bad ↦ cc (rw (plain, bad) at h)
      | inl good ↦
          let same : here ≡ s = cc (rw (plain, good) at h) in
          (same, subst (λ t. is_state t ≡ true) same good)
    ]

says_minus :
    (tail : String) (s : State)
    → state_of (trim_suffix tail ".json") ≡ s
    → is_state s ≡ true
    → has_char b'-' tail ≡ false
says_minus tail s e h =
    let text : trim_suffix tail ".json" ≡ state_text s =
      state_of_sound (trim_suffix tail ".json") (ap is_state e ∙ h) ∙ ap state_text e in
    elim (trim_suffix_sound tail ".json") [
      | inl whole ↦ ap (has_char b'-') (whole ∙ text) ∙ state_text_minus s h
      | inr cut ↦
          ap (has_char b'-') (cut ∙ ap (λ (x : String). x <> ".json") text) ∙ file_name_minus s h
    ]

module _ (P : Platform) where
  -- The folder and the file of a reservation's name.
  reservation_name-split :
      (now : Instant) (nonce : List ℕ) (key : String)
      → reservation_name P now nonce key
        ≡ ("spend/" <> now.day) <> ("/" <> reservation_file now (P.sum_prefix key) nonce)
  unfolding reservation_name
  reservation_name-split now nonce key = sym (append_assoc "spend/" now.day _)

  -- No reservation takes the name of a ledger object.
  pub reservation_name-apart :
      (now : Instant) (nonce : List ℕ) (key k : String) (s : State)
      → is_state s ≡ true
      → reservation_name P now nonce key ≢ object_name k s
  unfolding object_name
  reservation_name-apart now nonce key k s h e =
      let file = reservation_file now (P.sum_prefix key) nonce in
      let (_, same) =
        last_slash ("spend/" <> now.day) k file (file_name s)
          (reservation_file_slash now (P.sum_prefix key) nonce) (file_name_plain s h).0
          (sym (reservation_name-split now nonce key) ∙ e) in
      cc (
        ap (has_char b'-') same,
        reservation_file_minus now (P.sum_prefix key) nonce,
        file_name_minus s h,
      )

  -- Nor does `Furthest` ever read a state out of a reservation's name, whatever the key.
  pub state_in-reservation_name :
      (now : Instant) (nonce : List ℕ) (key k : String) (s : State)
      → has_prefix (reservation_name P now nonce key) (k <> "/") ≡ true
      → state_in k (reservation_name P now nonce key) ≢ some s
  state_in-reservation_name now nonce key k s listed e =
      let name = reservation_name P now nonce key in
      let file = reservation_file now (P.sum_prefix key) nonce in
      let (said, proper) = state_in_says k name s e in
      let (_, same) =
        last_slash ("spend/" <> now.day) k file (trim_prefix name (k <> "/"))
          (reservation_file_slash now (P.sum_prefix key) nonce) (state_in_plain k name e)
          (sym (reservation_name-split now nonce key) ∙ under_key k name listed) in
      cc (
        ap (has_char b'-') same,
        reservation_file_minus now (P.sum_prefix key) nonce,
        says_minus (trim_prefix name (k <> "/")) s said proper,
      )
