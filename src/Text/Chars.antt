-- ===== src/Text/Chars.antt =====
-- Which characters stand in a text: over concatenation, and in printed numbers.
use Prim.Native.String.{String, [], ◌∷◌}
use text.Mathlib.TextLemmas.{nil-append, cons-append}
use ai_k8s.Prelude.{
  ℕ, zero, suc, ◌/◌, ◌%◌, ◌<>◌, ◌≡◌, refl, ◌∙◌, false, ◌||◌, List, arith, Bool-cases, ltb, inl, inr,
  all, not, true, Eq-nat,
}
use ai_k8s.Text.{has_char}
use ai_k8s.Text.Format.{pick, digits, digit, digits_from, decimal, hex2, hex}

pub has_char-append : (k : ℕ) (s t : String) → has_char k (s <> t) ≡ (has_char k s || has_char k t)
unfolding has_char
has_char-append k [] t = rw nil-append
has_char-append k (c ∷ s) t = rw cons-append (ground (arith, has_char-append k s t))

-- No text of a list holds a character, by a test of all of them.
pub has_char-pick :
    (k : ℕ) (texts : List String)
    → all (λ s. not (has_char k s)) texts ≡ true
    → (n : ℕ) → has_char k (pick texts n) ≡ false
unfolding pick
has_char-pick k List.[] h n = unfold has_char in refl
has_char-pick k (List.◌∷◌ s texts) h zero = ground (arith, h)
has_char-pick k (List.◌∷◌ s texts) h (suc n) = has_char-pick k texts (ground (arith, h)) n

digits-slash : all (λ s. not (has_char b'/' s)) digits ≡ true
unfolding has_char
digits-slash = refl

digit-slash : (d : ℕ) → has_char b'/' (digit d) ≡ false
unfolding digit
digit-slash = has_char-pick b'/' digits digits-slash

-- No printed number holds a slash.
digits_from-slash : (fuel n : ℕ) → has_char b'/' (digits_from fuel n) ≡ false
unfolding digits_from
digits_from-slash zero n = unfold has_char in refl
digits_from-slash (suc fuel) n = elim (Bool-cases (ltb n 10)) [
  | inl last ↦ rw last (digit-slash n)
  | inr more ↦ rw more (
      has_char-append b'/' (digits_from fuel (n / 10)) (digit (n % 10))
      ∙ rw (digits_from-slash fuel (n / 10)) (digit-slash (n % 10)))
]

pub decimal-slash : (n : ℕ) → has_char b'/' (decimal n) ≡ false
unfolding decimal
decimal-slash n = digits_from-slash (suc n) n

hex2-slash : (b : ℕ) → has_char b'/' (hex2 b) ≡ false
unfolding hex2
hex2-slash b =
    has_char-append b'/' (digit (b / 16)) (digit (b % 16))
    ∙ rw (digit-slash (b / 16)) (digit-slash (b % 16))

pub hex-slash : (bytes : List ℕ) → has_char b'/' (hex bytes) ≡ false
unfolding hex
hex-slash List.[] = unfold has_char in refl
hex-slash (List.◌∷◌ b bytes) =
    has_char-append b'/' (hex2 b) (hex bytes) ∙ rw (hex2-slash b) (hex-slash bytes)
