-- ===== src/Corpus/Maps.antt =====
-- The laws of the association lists that stand for Go maps.
use mathlib.Core.List.{[]}
use ai_k8s.Prelude.{
  ◌≡◌, refl, String, List, ◌∷◌, some, arith, if◌then◌else◌, ◌==◌, Eq-string, eq_iff,
}
use ai_k8s.Corpus.Index.{lookup, insert}

module _ {ℓ} {Held : Type ℓ} where
  pub lookup-cons :
      (here name : String) (held : Held) (rest : List (String × Held))
      → lookup name ((here, held) ∷ rest) ≡ (if here == name then some held else lookup name rest)
  unfolding lookup
  lookup-cons here name held rest = refl

  -- A write is read back under its key, and under no other.
  pub lookup-insert :
      (written name : String) (new : Held) (table : List (String × Held))
      → lookup name (insert written new table)
        ≡ (if written == name then some new else lookup name table)
  unfolding lookup insert
  lookup-insert written name new [] = refl
  lookup-insert written name new ((here, held) ∷ rest) =
      let below = lookup-insert written name new rest in
      ground (arith, below, eq_iff here written, eq_iff here name, eq_iff written name)
