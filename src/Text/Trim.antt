-- ===== src/Text/Trim.antt =====
-- Trimming: the edges of the result, and that trimming again changes nothing.
use Prim.Native.Char.{code}
use Prim.Native.String.{String, [], ◌∷◌}
use ai_k8s.Prelude.{Bool, ℕ, ◌≡◌, refl, false, Bool-cases, ◌&&◌, Eq-string, inl, inr}
use ai_k8s.Text.{is_nil, is_space, trim_left, trim_right, trim, trim_space}

module _ (p : ℕ → Bool) where
  -- The first, or the last, character is none that `p` cuts off.
  abbrev pub NoLead : String → Type 0
  NoLead [] = Unit
  NoLead (c ∷ s) = p (code c) ≡ false

  abbrev pub NoTrail : String → Type 0
  NoTrail [] = Unit
  NoTrail (c ∷ s) = ((is_nil s && p (code c)) ≡ false) × NoTrail s

  trim_left-NoLead : (s : String) → NoLead (trim_left p s)
  unfolding trim_left
  trim_left-NoLead [] = tt
  trim_left-NoLead (c ∷ s) = elim (Bool-cases (p (code c))) [
    | inl cut ↦ rw cut (trim_left-NoLead s)
    | inr kept ↦ rw kept kept
  ]

  trim_right-NoLead : (s : String) → NoLead s → NoLead (trim_right p s)
  unfolding trim_right
  trim_right-NoLead [] h = tt
  trim_right-NoLead (c ∷ s) h = elim (Bool-cases (is_nil (trim_right p s) && p (code c))) [
    | inl cut ↦ rw cut tt
    | inr kept ↦ rw kept h
  ]

  trim_right-NoTrail : (s : String) → NoTrail (trim_right p s)
  unfolding trim_right
  trim_right-NoTrail [] = tt
  trim_right-NoTrail (c ∷ s) = elim (Bool-cases (is_nil (trim_right p s) && p (code c))) [
    | inl cut ↦ rw cut tt
    | inr kept ↦ rw kept (kept, trim_right-NoTrail s)
  ]

  trim_left_of_NoLead : (s : String) → NoLead s → trim_left p s ≡ s
  unfolding trim_left
  trim_left_of_NoLead [] h = refl
  trim_left_of_NoLead (c ∷ s) h = rw h

  trim_right_of_NoTrail : (s : String) → NoTrail s → trim_right p s ≡ s
  unfolding trim_right
  trim_right_of_NoTrail [] h = refl
  trim_right_of_NoTrail (c ∷ s) h = rw (trim_right_of_NoTrail s h.1) (rw h.0)

  pub trim-NoLead : (s : String) → NoLead (trim p s)
  unfolding trim
  trim-NoLead s = trim_right-NoLead (trim_left p s) (trim_left-NoLead s)

  pub trim-NoTrail : (s : String) → NoTrail (trim p s)
  unfolding trim
  trim-NoTrail s = trim_right-NoTrail (trim_left p s)

  pub trim_of_edges : (s : String) → NoLead s → NoTrail s → trim p s ≡ s
  unfolding trim
  trim_of_edges s h k = rw (trim_left_of_NoLead s h) (trim_right_of_NoTrail s k)

  pub trim_idem : (s : String) → trim p (trim p s) ≡ trim p s
  trim_idem s = trim_of_edges (trim p s) (trim-NoLead s) (trim-NoTrail s)

pub trim_space_idem : (s : String) → trim_space (trim_space s) ≡ trim_space s
unfolding trim_space
trim_space_idem s = trim_idem is_space s
