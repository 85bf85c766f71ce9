-- ===== src/Worker/Flow.antt =====
-- Steps over a state that may fail or end the process, and the rules by which they are reasoned
-- about.
use ai_k8s.Prelude.{Error}

-- How a step ends: with a value, with an error, or with the process gone.
pub data Flow (A : Type 0) : Type 0 where
  done : A → Flow A
  fail : Error → Flow A
  exited : Flow A

abbrev pub Run : Type 0 → Type 0 → Type 0
Run W A = W → Flow A × W

abbrev pub bind_flow : {W A B : Type 0} → Flow A → (A → Run W B) → W → Flow B × W
bind_flow (done a) f w = f a w
bind_flow (fail e) f w = (fail e, w)
bind_flow exited f w = (exited, w)

infixl 5 ◌>>=◌ ◌>>◌
abbrev pub ◌>>=◌ : {W A B : Type 0} → Run W A → (A → Run W B) → Run W B
◌>>=◌ m f w = bind_flow (m w).0 f (m w).1

abbrev pub ◌>>◌ : {W B : Type 0} → Run W (Unit {0}) → Run W B → Run W B
m >> k = m >>= λ _. k

abbrev pub pure : {W A : Type 0} → A → Run W A
pure a w = (done a, w)

abbrev pub raise : {W A : Type 0} → Error → Run W A
raise e w = (fail e, w)

abbrev pub exit : {W A : Type 0} → Run W A
exit w = (exited, w)

-- What holds at the end: `Q` of the value and the state, or `B` of the state after an error or an
-- exit.
abbrev pub Ends : {W A : Type 0} → (A → W → Type 0) → (W → Type 0) → Flow A × W → Type 0
Ends Q B (done a, w) = Q a w
Ends Q B (fail e, w) = B w
Ends Q B (exited, w) = B w

module _ {W A C : Type 0} (B : W → Type 0) where
  -- The rule for a bind.
  pub bind-Ends :
      (M : A → W → Type 0) (Q : C → W → Type 0) (res : Flow A × W) (f : A → Run W C)
      → Ends M B res
      → ((a : A) (w : W) → M a w → Ends Q B (f a w))
      → Ends Q B (bind_flow res.0 f res.1)
  bind-Ends M Q (done a, w) f h k = k a w h
  bind-Ends M Q (fail e, w) f h k = h
  bind-Ends M Q (exited, w) f h k = h
