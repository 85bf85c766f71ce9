-- ===== src/Text/Order.antt =====
-- The order of Go strings, `a < b`, is a total order.
use Prim.Native.Nat.{Ordering, compare as compare_nat}
use Prim.Native.Char.{Char, code}
use Prim.Native.String.compare
use Prim.Native.String.{String, [], ◌∷◌, compare as compare_text, then}
use text.Mathlib.TextEquality.{Char-path}
use ai_k8s.Prelude.{
  ◌≡◌, refl, sym, ap, ◌∙◌, true, false, Bool, ◌||◌, ◌&&◌, less_text, ltb, nat_eq, arith, Bool-cases,
  inl, inr,
}

pub less_text-nil : (s : String) → less_text s [] ≡ false
less_text-nil [] = refl
less_text-nil (c ∷ s) = rw (compare.cons-nil c s, less_text) refl

less_text-nil_cons : (d : Char) (t : String) → less_text [] (d ∷ t) ≡ true
less_text-nil_cons d t = rw (compare.nil-cons d t, less_text) refl

abbrev is_less : Ordering → Bool
is_less o = elim o [ Ordering.lt ↦ true | _ ↦ false ]

abbrev is_same : Ordering → Bool
is_same o = elim o [ Ordering.eq ↦ true | _ ↦ false ]

then_less : (o p : Ordering) → is_less (then o p) ≡ (is_less o || (is_same o && is_less p))
then_less Ordering.lt p = refl
then_less Ordering.eq p = refl
then_less Ordering.gt p = refl

less_text-cons :
    (c d : Char) (s t : String)
    → less_text (c ∷ s) (d ∷ t)
      ≡ (ltb (code c) (code d) || (nat_eq (code c) (code d) && less_text s t))
less_text-cons c d s t =
    rw (compare.cons-cons c d s t, less_text)
      (then_less (compare_nat (code c) (code d)) (compare_text s t))

pub less_text_trans :
    (a b c : String) → less_text a b ≡ true → less_text b c ≡ true → less_text a c ≡ true
less_text_trans a b [] h k = cc (less_text-nil b, k)
less_text_trans a [] (e ∷ u) h k = cc (less_text-nil a, h)
less_text_trans [] (d ∷ t) (e ∷ u) h k = less_text-nil_cons e u
less_text_trans (c ∷ s) (d ∷ t) (e ∷ u) h k =
    less_text-cons c e s u
    ∙ ground (
      arith,
      sym (less_text-cons c d s t) ∙ h,
      sym (less_text-cons d e t u) ∙ k,
      less_text_trans s t u,
    )

less_text_total : (a b : String) → less_text a b ≡ false → less_text b a ≡ false → a ≡ b
less_text_total [] [] h k = refl
less_text_total [] (d ∷ t) h k = cc (less_text-nil_cons d t, h)
less_text_total (c ∷ s) [] h k = cc (less_text-nil_cons c s, k)
less_text_total (c ∷ s) (d ∷ t) h k =
    let over = sym (less_text-cons c d s t) ∙ h in
    let under = sym (less_text-cons d c t s) ∙ k in
    let same : code c ≡ code d = ground (arith, over, under) in
    let rest = less_text_total s t (ground (arith, over, same)) (ground (arith, under, same)) in
    ap (λ x. x ∷ s) (Char-path c d same) ∙ ap (λ r. d ∷ r) rest

pub less_text_irrefl : (a : String) → less_text a a ≡ false
less_text_irrefl [] = refl
less_text_irrefl (c ∷ s) = less_text-cons c c s s ∙ ground (arith, less_text_irrefl s)

-- What is not below a text that is not below a third one is not below that one either.
pub less_text-between :
    (a b c : String) → less_text a b ≡ false → less_text b c ≡ false → less_text a c ≡ false
less_text-between a b c h k = elim (Bool-cases (less_text a c)) [
  | inr done ↦ done
  | inl below ↦ elim (Bool-cases (less_text b a)) [
    | inl under ↦ cc (less_text_trans b a c under below, k)
    | inr level ↦ cc (less_text_total a b h level, k)
  ]
]
