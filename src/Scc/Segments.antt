-- ===== src/Scc/Segments.antt =====
-- What `pathSafe` (internal/scc/finding.go) makes of any text: no traversal and no empty segment, and
-- the fuel of its loops is enough.
use Prim.Native.Char.{Char, code}
use Prim.Native.String.{String}
use ai_k8s.Prelude.{
  ℕ, zero, suc, ◌≤◌, ◌<◌, ◌≡◌, refl, sym, ap, ◌∙◌, inl, inr, true, false, Bool-cases, arith, ◌==◌,
  Eq-nat,
}
use ai_k8s.Text.{contains, replace_all, size, trim}
use ai_k8s.Text.Doubles.{
  twice, once, double, contains-twice, size_less, double-outside, double-trim,
}
use ai_k8s.Text.Trim.{NoLead, NoTrail, trim-NoLead, trim-NoTrail}
use ai_k8s.Scc.Key.{replace_unsafe, replace_while, is_edge, path_safe}

module _ (x : Char) where
  replace_all-less :
      (s : String) → double (code x) s ≡ true → size (replace_all s (twice x) (once x)) < size s
  unfolding replace_all
  replace_all-less s h = size_less x s h

  small : (s : String) → size s ≤ 0 → double (code x) s ≡ false
  unfolding size double
  small String.[] h = refl
  small (String.◌∷◌ c t) h = absurd (omega (arith, h))

  -- The size of the text is fuel enough.
  replace_while_done :
      (fuel : ℕ) (s : String)
      → size s ≤ fuel
      → double (code x) (replace_while fuel (twice x) (once x) s) ≡ false
  unfolding replace_while
  replace_while_done zero s enough = small s enough
  replace_while_done (suc fuel) s enough = elim (Bool-cases (double (code x) s)) [
    | inl again ↦
        rw (contains-twice, again)
          (replace_while_done fuel (replace_all s (twice x) (once x))
            (omega (arith, enough, replace_all-less s again)))
    | inr done ↦ rw (contains-twice, done) done
  ]

  replace_while_rest :
      (fuel : ℕ) (s : String)
      → double (code x) s ≡ false
      → replace_while fuel (twice x) (once x) s ≡ s
  unfolding replace_while
  replace_while_rest zero s h = refl
  replace_while_rest (suc fuel) s h = rw (contains-twice, h) refl

  -- With fuel enough, how much it is makes no difference.
  replace_while_settled :
      (fuel fuel' : ℕ) (s : String)
      → size s ≤ fuel
      → size s ≤ fuel'
      → replace_while fuel (twice x) (once x) s ≡ replace_while fuel' (twice x) (once x) s
  unfolding replace_while
  replace_while_settled zero fuel' s a b = sym (replace_while_rest fuel' s (small s a))
  replace_while_settled (suc fuel) zero s a b = replace_while_rest (suc fuel) s (small s b)
  replace_while_settled (suc fuel) (suc fuel') s a b = elim (Bool-cases (double (code x) s)) [
    | inr done ↦ rw (contains-twice, done) refl
    | inl again ↦
        rw (contains-twice, again)
          (replace_while_settled fuel fuel' (replace_all s (twice x) (once x))
            (omega (arith, a, replace_all-less s again))
            (omega (arith, b, replace_all-less s again)))
  ]

  replace_while_apart :
      (k : ℕ) (fuel : ℕ) (s : String)
      → (code x == k) ≡ false
      → double k s ≡ false
      → double k (replace_while fuel (twice x) (once x) s) ≡ false
  unfolding replace_while replace_all
  replace_while_apart k zero s apart h = h
  replace_while_apart k (suc fuel) s apart h = elim (Bool-cases (contains s (twice x))) [
    | inl again ↦ rw again (replace_while_apart k fuel _ apart (double-outside x k apart s h).0)
    | inr done ↦ rw done h
  ]

-- Whatever the text, what `pathSafe` makes of it holds neither two dots nor two slashes in a row, and
-- neither begins nor ends with a slash or an underscore; the fuel of its loops is enough.
pub contains-path_safe :
    (s : String)
    → (contains (path_safe s) ".." ≡ false)
      × (contains (path_safe s) "//" ≡ false)
      × NoLead is_edge (path_safe s)
      × NoTrail is_edge (path_safe s)
unfolding path_safe
contains-path_safe s =
    let out = replace_unsafe s in
    let dots = replace_while (size out) ".." "." out in
    let slashes = replace_while (size dots) "//" "/" dots in
    let no_dots : double b'.' dots ≡ false = replace_while_done "." (size out) out (omega arith) in
    let still : double b'.' slashes ≡ false =
      replace_while_apart "/" b'.' (size dots) dots refl no_dots in
    let no_slashes : double b'/' slashes ≡ false =
      replace_while_done "/" (size dots) dots (omega arith) in
    (
      contains-twice "." (trim is_edge slashes) ∙ double-trim is_edge b'.' slashes still,
      contains-twice "/" (trim is_edge slashes) ∙ double-trim is_edge b'/' slashes no_slashes,
      trim-NoLead is_edge slashes,
      trim-NoTrail is_edge slashes,
    )

-- The loops of `pathSafe` end: each with no match left, and with any fuel from the size of its text on
-- the result is the one of `path_safe`.
pub path_safe_ends :
    (s : String) (n m : ℕ)
    → size (replace_unsafe s) ≤ n
    → size (replace_while n ".." "." (replace_unsafe s)) ≤ m
    → (path_safe s
        ≡ trim is_edge (replace_while m "//" "/" (replace_while n ".." "." (replace_unsafe s))))
      × (contains (replace_while n ".." "." (replace_unsafe s)) ".." ≡ false)
      × (contains (replace_while m "//" "/" (replace_while n ".." "." (replace_unsafe s))) "//"
          ≡ false)
unfolding path_safe
path_safe_ends s n m a b =
    let out = replace_unsafe s in
    let same = replace_while_settled "." (size out) n out (omega arith) a in
    let dots = replace_while n ".." "." out in
    let then_same = replace_while_settled "/" (size dots) m dots (omega arith) b in
    (
      ap (λ d. trim is_edge (replace_while (size d) "//" "/" d)) same ∙ ap (trim is_edge) then_same,
      contains-twice "." dots ∙ replace_while_done "." n out a,
      contains-twice "/" (replace_while m "//" "/" dots) ∙ replace_while_done "/" m dots b,
    )
