-- ===== src/Text/Doubles.antt =====
-- A character that stands twice in a row, and the loop of strings.ReplaceAll that takes it to one.
use Prim.Native.Char.{Char, code}
use Prim.Native.String.{String, [], ◌∷◌}
use text.Mathlib.TextLemmas.{nil-append, cons-append}
use ai_k8s.Prelude.{
  ℕ, suc, ◌≤◌, ◌<◌, ◌<>◌, ◌≡◌, refl, ap, ◌∙◌, inl, inr, Bool, true, false, ◌&&◌, ◌||◌, arith,
  Bool-cases, if◌then◌else◌, ◌==◌, Eq-nat,
}
use ai_k8s.Text.{
  has_prefix, strip_prefix, contains, is_nil, size, replace_from, trim_left, trim_right, trim,
}

abbrev pub starts : ℕ → String → Bool
starts k [] = false
starts k (c ∷ s) = code c == k

and_mono : (a : Bool) {b c : Bool} → (c ≡ true → b ≡ true) → (a && b) ≡ false → (a && c) ≡ false
and_mono a {b} {c = true} f h = cc (f refl, h)
and_mono a {b} {c = false} f h = ground arith

or_false : {a b : Bool} → a ≡ false → b ≡ false → (a || b) ≡ false
or_false h k = ground (arith, h, k)

-- The character stands twice in a row somewhere.
abbrev pub double : ℕ → String → Bool
double k [] = false
double k (c ∷ s) = (code c == k && starts k s) || double k s

module _ (x : Char) where
  abbrev pub twice : String
  twice = x ∷ x ∷ []

  abbrev pub once : String
  once = x ∷ []

  has_prefix-twice :
      (c : Char) (s : String) → has_prefix (c ∷ s) twice ≡ (code c == code x && starts (code x) s)
  unfolding has_prefix strip_prefix
  has_prefix-twice c [] = ground arith
  has_prefix-twice c (d ∷ s) = ground arith

  pub contains-twice : (s : String) → contains s twice ≡ double (code x) s
  unfolding contains
  contains-twice [] = refl
  contains-twice (c ∷ s) =
      rw has_prefix-twice
        (ap (λ b. (code c == code x && starts (code x) s) || b) (contains-twice s))

  -- The replacement, from outside a match and from inside one.
  abbrev pub outside : String → String
  outside s = replace_from 0 twice once s

  abbrev pub inside : String → String
  inside s = replace_from 1 twice once s

  outside-cons :
      (c : Char) (s : String)
      → outside (c ∷ s)
        ≡ (if code c == code x && starts (code x) s then x ∷ inside s else c ∷ outside s)
  unfolding replace_from size
  outside-cons c s =
      let joined : once <> inside s ≡ x ∷ inside s =
        cons-append x [] (inside s) ∙ ap (λ (t : String). x ∷ t) (nil-append (inside s)) in
      rw has_prefix-twice (rw joined refl)

  outside-nil : outside [] ≡ []
  unfolding replace_from
  outside-nil = refl

  inside-nil : inside [] ≡ []
  unfolding replace_from
  inside-nil = refl

  inside-cons : (c : Char) (s : String) → inside (c ∷ s) ≡ outside s
  unfolding replace_from
  inside-cons c s = refl

  size_bound :
      (s : String)
      → (size (outside s) ≤ size s) × (starts (code x) s ≡ true → suc (size (inside s)) ≤ size s)
  unfolding size
  size_bound [] = (rw outside-nil (omega arith), λ h. cc h)
  size_bound (c ∷ s) =
      let below = size_bound s in
      (
        elim (Bool-cases (code c == code x && starts (code x) s)) [
          | inl matched ↦
              rw (outside-cons, matched)
                (omega (arith, below.1 (second (code c == code x) (starts (code x) s) matched)))
          | inr differ ↦ rw (outside-cons, differ) (omega (arith, below.0))
        ],
        λ h. rw inside-cons (omega (arith, below.0)),
      )
    where
      second : (a b : Bool) → (a && b) ≡ true → b ≡ true
      second a b h = ground arith

  -- A round of the loop shortens the text wherever there is something to replace.
  pub size_less : (s : String) → double (code x) s ≡ true → size (outside s) < size s
  unfolding size
  size_less [] h = cc h
  size_less (c ∷ s) h = elim (Bool-cases (code c == code x && starts (code x) s)) [
    | inl matched ↦
        rw (outside-cons, matched)
          (omega (arith, (size_bound s).1 (second (code c == code x) (starts (code x) s) matched)))
    | inr differ ↦ rw (outside-cons, differ) (omega (arith, size_less s (rw differ at h)))
  ]
    where
      second : (a b : Bool) → (a && b) ≡ true → b ≡ true
      second a b h = ground arith

  -- Replacing one character's doubles puts no other character twice in a row.
  module _ (k : ℕ) (apart : (code x == k) ≡ false) where
    starts-outside : (s : String) → starts k (outside s) ≡ true → starts k s ≡ true
    starts-outside [] h = rw outside-nil at h
    starts-outside (c ∷ s) h = elim (Bool-cases (code c == code x && starts (code x) s)) [
      | inl matched ↦ cc (rw (outside-cons, matched) at h, apart)
      | inr differ ↦ rw (outside-cons, differ) at h
    ]

    pub double-outside :
        (s : String)
        → double k s ≡ false
        → (double k (outside s) ≡ false) × (double k (inside s) ≡ false)
    double-outside [] h = (rw outside-nil refl, rw inside-nil refl)
    double-outside (c ∷ s) h =
        let (first, rest) = parts (code c == k && starts k s) (double k s) h in
        let below = double-outside s rest in
        (
          elim (Bool-cases (code c == code x && starts (code x) s)) [
            | inl matched ↦ rw (outside-cons, matched, apart) below.1
            | inr differ ↦
                rw (outside-cons, differ)
                  (or_false (and_mono (code c == k) (starts-outside s) first) below.0)
          ],
          rw inside-cons below.0,
        )
      where
        parts : (a b : Bool) → (a || b) ≡ false → (a ≡ false) × (b ≡ false)
        parts a b h = ground arith

-- Cutting a text at its ends puts nothing together either.
module _ (p : ℕ → Bool) (k : ℕ) where
  or_parts : (a b : Bool) → (a || b) ≡ false → (a ≡ false) × (b ≡ false)
  or_parts a b h = ground arith

  double-trim_left : (s : String) → double k s ≡ false → double k (trim_left p s) ≡ false
  unfolding trim_left
  double-trim_left [] h = refl
  double-trim_left (c ∷ s) h = elim (Bool-cases (p (code c))) [
    | inl cut ↦ rw cut (double-trim_left s (or_parts (code c == k && starts k s) (double k s) h).1)
    | inr kept ↦ rw kept h
  ]

  starts-trim_right : (s : String) → starts k (trim_right p s) ≡ true → starts k s ≡ true
  unfolding trim_right
  starts-trim_right [] h = h
  starts-trim_right (c ∷ s) h = elim (Bool-cases (is_nil (trim_right p s) && p (code c))) [
    | inl cut ↦ cc (rw cut at h)
    | inr kept ↦ rw kept at h
  ]

  double-trim_right : (s : String) → double k s ≡ false → double k (trim_right p s) ≡ false
  unfolding trim_right
  double-trim_right [] h = refl
  double-trim_right (c ∷ s) h = elim (Bool-cases (is_nil (trim_right p s) && p (code c))) [
    | inl cut ↦ rw cut refl
    | inr kept ↦
        let (first, rest) = or_parts (code c == k && starts k s) (double k s) h in
        rw kept
          (or_false (and_mono (code c == k) (starts-trim_right s) first) (double-trim_right s rest))
  ]

  pub double-trim : (s : String) → double k s ≡ false → double k (trim p s) ≡ false
  unfolding trim
  double-trim s h = double-trim_right (trim_left p s) (double-trim_left s h)
