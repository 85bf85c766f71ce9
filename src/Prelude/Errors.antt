-- ===== src/Prelude/Errors.antt =====
-- Go's `(value, error)` results, with the sentinel errors that the program tells apart.
use Prim.Native.String.{String, ◌++◌ as ◌<>◌}
use mathlib.Core.Path.{◌≡◌, refl}
use mathlib.Core.Logic.{◌⊎◌, inl, inr}

-- `exists` is ledger.ErrExists, `not_found` is ledger.ErrNotFound, `model_failed` wraps
-- worker.ErrModel; `failed` is any other error, by its text.
pub data Error : Type 0 where
  exists not_found : Error
  model_failed : String → Error
  failed : String → Error

abbrev pub error_text : Error → String
error_text exists = "ledger object already exists"
error_text not_found = "ledger object not found"
error_text (model_failed why) = "the model call did not complete: " <> why
error_text (failed why) = why

-- fmt.Errorf("what: %w", err), where nobody tells the sentinel in `err` apart any more.
abbrev pub wrap : String → Error → Error
wrap what e = failed (what <> (": " <> error_text e))

pub data Result {ℓ} (A : Type ℓ) : Type ℓ where
  ok : A → Result A
  err : Error → Result A

pub Result-cases {ℓ} :
    {A : Type ℓ} (r : Result A) → ((a : A) × (r ≡ ok a)) ⊎ ((e : Error) × (r ≡ err e))
Result-cases (ok a) = inl (a, refl)
Result-cases (err e) = inr (e, refl)

pub ok-injective {ℓ} : {A : Type ℓ} {a b : A} → ok a ≡ ok b → a ≡ b
ok-injective h = cc
