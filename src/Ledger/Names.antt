-- ===== src/Ledger/Names.antt =====
-- Object names: what `Furthest` reads back out of the name that `Write` gives.
use Prim.Native.Char.{Char, code}
use Prim.Native.String.{String, [], ◌∷◌}
use text.Mathlib.TextEquality.{Char-path}
use text.Mathlib.TextLemmas.{nil-append, cons-append, append_assoc, cons-eq-cons}
use ai_k8s.Prelude.{
  ◌<>◌, ◌≡◌, refl, sym, ◌∙◌, ap, inl, inr, true, false, some, arith, Bool-cases, Option-cases, ◌==◌,
  Eq-nat, nat_eq_iff,
}
use ai_k8s.Text.{has_char, has_prefix, strip_prefix, trim_prefix, trim_suffix}
use ai_k8s.Ledger.State.{
  State, received, classified, notification_attempted, acknowledged, other, state_text, state_of,
  is_state, object_name, state_in,
}

strip_prefix-append : (p s : String) → strip_prefix (p <> s) p ≡ some s
unfolding strip_prefix
strip_prefix-append [] s = rw nil-append
strip_prefix-append (c ∷ p) s = rw cons-append (ground (arith, strip_prefix-append p s))

strip_prefix_sound : (s p t : String) → strip_prefix s p ≡ some t → s ≡ p <> t
unfolding strip_prefix
strip_prefix_sound s [] t h = cc (nil-append t)
strip_prefix_sound [] (c ∷ p) t h = cc
strip_prefix_sound (d ∷ s) (c ∷ p) t h = elim (Bool-cases (code d == code c)) [
  | inr differ ↦ cc (rw differ at h)
  | inl same ↦ rw cons-append (
      cons-eq-cons.1
        (Char-path d c ((nat_eq_iff _ _).0 same), strip_prefix_sound s p t (rw same at h)))
]

has_char-slash : (a b : String) → has_char b'/' (a <> ("/" <> b)) ≡ true
unfolding has_char
has_char-slash [] b = rw (nil-append, cons-append)
has_char-slash (c ∷ a) b = rw cons-append (ground (arith, has_char-slash a b))

slash_append : (t : String) → "/" <> t ≡ "/" ∷ t
slash_append t = cons-append _ [] t ∙ ap (λ (x : String). "/" ∷ x) (nil-append t)

lead_slash : (t : String) → "" <> ("/" <> t) ≡ "/" ∷ t
lead_slash t = nil-append ("/" <> t) ∙ slash_append t

not_slash :
    (t b u : String) {c : Char}
    → has_char b'/' t ≡ false
    → Path String ("/" ∷ t) (c ∷ (b <> ("/" <> u)))
    → ⊥
not_slash t b u h e =
    let tail = (cons-eq-cons.0 e).1 in cc (ap (has_char b'/') tail, has_char-slash b u, h)

-- A text falls apart at its last slash in one way.
pub last_slash :
    (a b t u : String)
    → has_char b'/' t ≡ false
    → has_char b'/' u ≡ false
    → a <> ("/" <> t) ≡ b <> ("/" <> u)
    → (a ≡ b) × (t ≡ u)
last_slash [] [] t u ht hu e = (refl, (cons-eq-cons.0 (sym (lead_slash t) ∙ e ∙ lead_slash u)).1)
last_slash [] (c ∷ b) t u ht hu e =
    absurd (not_slash t b u ht (sym (lead_slash t) ∙ e ∙ cons-append c b ("/" <> u)))
last_slash (c ∷ a) [] t u ht hu e =
    absurd (not_slash u a t hu (sym (lead_slash u) ∙ sym e ∙ cons-append c a ("/" <> t)))
last_slash (c ∷ a) (d ∷ b) t u ht hu e =
    let both = cons-eq-cons.0 (sym (cons-append c a ("/" <> t)) ∙ e ∙ cons-append d b ("/" <> u)) in
    let (same, rest) = last_slash a b t u ht hu both.1 in (cons-eq-cons.1 (both.0, same), rest)

-- The part of an object name behind its key.
abbrev pub file_name : State → String
file_name s = state_text s <> ".json"

pub file_name_plain :
    (s : State)
    → is_state s ≡ true
    → (has_char b'/' (file_name s) ≡ false) × (state_of (trim_suffix (file_name s) ".json") ≡ s)
unfolding has_char state_of trim_suffix
file_name_plain received h = (refl, refl)
file_name_plain classified h = (refl, refl)
file_name_plain notification_attempted h = (refl, refl)
file_name_plain acknowledged h = (refl, refl)
file_name_plain (other s) h = cc

behind_key : (key t : String) → trim_prefix (key <> ("/" <> t)) (key <> "/") ≡ t
unfolding trim_prefix
behind_key key t = rw (← append_assoc) (rw strip_prefix-append)

pub object_name-under :
    (key : String) (s : State) → has_prefix (object_name key s) (key <> "/") ≡ true
unfolding object_name has_prefix
object_name-under key s = rw (← append_assoc) (rw strip_prefix-append)

-- A name that `Write` gives reads back, under its own key, as its state.
pub state_in-object_name :
    (key : String) (s : State) → is_state s ≡ true → state_in key (object_name key s) ≡ some s
unfolding state_in object_name
state_in-object_name key s h =
    let plain = file_name_plain s h in rw (behind_key, plain.0, plain.1, h)

pub state_in_plain :
    (key name : String) {t : State}
    → state_in key name ≡ some t
    → has_char b'/' (trim_prefix name (key <> "/")) ≡ false
unfolding state_in
state_in_plain key name h = elim (Bool-cases (has_char b'/' (trim_prefix name (key <> "/")))) [
  | inl deeper ↦ cc (rw deeper at h)
  | inr plain ↦ plain
]

pub under_key :
    (key name : String)
    → has_prefix name (key <> "/") ≡ true
    → name ≡ key <> ("/" <> trim_prefix name (key <> "/"))
unfolding has_prefix trim_prefix
under_key key name h = elim (Option-cases (strip_prefix name (key <> "/"))) [
  | inl missing ↦ cc (rw missing at h)
  | inr (tail, found) ↦
      rw found (strip_prefix_sound name (key <> "/") tail found ∙ append_assoc key "/" tail)
]

-- Of the names that `Write` gives, only those of the key itself say anything about it: another
-- key's objects never count, not even where one key begins the other.
pub state_in-own :
    (key k : String) (s t : State)
    → is_state s ≡ true
    → has_prefix (object_name k s) (key <> "/") ≡ true
    → state_in key (object_name k s) ≡ some t
    → (key ≡ k) × (t ≡ s)
unfolding object_name
state_in-own key k s t h listed says =
    let name = object_name k s in
    let (same, _) =
      last_slash key k (trim_prefix name (key <> "/")) (file_name s) (state_in_plain key name says)
        (file_name_plain s h).0 (sym (under_key key name listed)) in
    (same, cc (state_in-object_name k s h, says, same))
