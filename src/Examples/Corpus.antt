-- ===== src/Examples/Corpus.antt =====
-- The corpus index at concrete inputs (internal/corpus).
use mathlib.Core.List.{[], Memᴰ}
use mathlib.Core.Option
use ai_k8s.Prelude.{none, ◌≢◌, some, ◌∷◌, ◌≡◌, refl, ◌↔◌}
use ai_k8s.Scc.{blank}
use ai_k8s.Corpus.Index.{lookup, lookup_entry, resolve}
use ai_k8s.Corpus.Resolve.{Priced, resolve_iff}
use ai_k8s.Text.{trim_space}
use ai_k8s.Text.Format.{decimal}
use ai_k8s.Corpus.Mapping.{
  categories_of, insert_text, sort_texts, cite_problems, pairing_problems, pairings_problems,
  category_problems, mapping_problems, validate_index,
}
use ai_k8s.Corpus.Checked.{IsChecked, validate_index_iff, resolve-ne-nil}
use ai_k8s.Examples.Setting.{priced_pool, corpus, one_node}

resolve_iff_example :
    Memᴰ one_node (resolve corpus "SINGLE_ZONE" "//container/pool")
    ↔ Priced corpus
        (Option.get_or (lookup "SINGLE_ZONE" corpus.mapping) [])
        "//container/pool"
        one_node
resolve_iff_example = resolve_iff corpus "SINGLE_ZONE" "//container/pool" one_node

mapped : lookup "SINGLE_ZONE" corpus.mapping ≡ some (priced_pool ∷ [])
unfolding lookup
mapped = refl

corpus_valid : validate_index corpus ≡ none
unfolding validate_index mapping_problems sort_texts insert_text categories_of category_problems
    pairings_problems pairing_problems cite_problems blank trim_space lookup_entry lookup decimal
corpus_valid = refl

validate_index_iff_example : (validate_index corpus ≡ none) ↔ IsChecked corpus
validate_index_iff_example = validate_index_iff corpus

resolve-ne-nil_example : resolve corpus "SINGLE_ZONE" "//container/pool" ≢ []
resolve-ne-nil_example =
    resolve-ne-nil corpus "SINGLE_ZONE" (priced_pool ∷ []) priced_pool corpus_valid mapped
      (Memᴰ.head refl)
