-- ===== src/Examples/Ledger.antt =====
-- The bucket at concrete inputs (internal/ledger, internal/model/spend.go).
use mathlib.Core.List.{[]}
use ai_k8s.Prelude.{List, String, ◌<>◌, true, some, ◌∷◌, ok, ◌≡◌, ◌≢◌, refl}
use ai_k8s.Text.{has_prefix, strip_prefix, trim_prefix, trim_suffix, strip_suffix, has_char}
use ai_k8s.Text.Format.{hex, decimal}
use ai_k8s.Ledger.Store.{Store, list, names_under, unsure, fine}
use ai_k8s.Ledger.State.{
  received, classified, state_in, state_of, furthest, furthest_of, further, before,
}
use ai_k8s.Ledger.Furthest.{FarthestOf, furthest-FarthestOf}
use ai_k8s.Ledger.Contract.{
  Call, create_call, list_call, read_call, Follows, perform_all, replay, view,
}
use ai_k8s.Ledger.Refines.{perform_all-Follows}
use ai_k8s.Model.Spend.{reservation_name}
use ai_k8s.Model.Apart.{state_in-reservation_name}
use ai_k8s.Examples.Setting.{plain, noon}

-- Two states of one finding, and a bucket whose next create says nothing of what it did.
abbrev two_states : Store String
two_states = record {
  objects = ("k/classified.json", "two") ∷ ("k/received.json", "one") ∷ [];
  script = [];
}

two_states-furthest : (furthest "k" two_states).0 ≡ ok (some classified)
unfolding furthest list names_under has_prefix strip_prefix furthest_of further state_in state_of
    trim_prefix trim_suffix strip_suffix has_char before
two_states-furthest = refl

furthest-FarthestOf_example : FarthestOf "k" two_states (some classified)
furthest-FarthestOf_example =
    furthest-FarthestOf "k" two_states (some classified) two_states-furthest

reservation_listed :
    has_prefix (reservation_name plain noon (1 ∷ []) "k") ("spend/2025-06-01" <> "/") ≡ true
unfolding has_prefix strip_prefix reservation_name hex decimal
reservation_listed = refl

state_in-reservation_name_example :
    state_in "spend/2025-06-01" (reservation_name plain noon (1 ∷ []) "k") ≢ some received
state_in-reservation_name_example =
    state_in-reservation_name plain noon (1 ∷ []) "k" "spend/2025-06-01" received reservation_listed

-- A claim, a claim of the same name that is refused, a read, and a list in doubt.
abbrev calls : List (Call String)
calls = create_call "k/a" "1" ∷ create_call "k/a" "2" ∷ read_call "k/a" ∷ list_call "k/" ∷ []

abbrev doubtful : Store String
doubtful = record { objects = []; script = fine ∷ fine ∷ fine ∷ unsure ∷ [] }

perform_all-Follows_example :
    Follows calls (view doubtful) (perform_all calls doubtful).0
    × (view (perform_all calls doubtful).1 ≡ replay calls (view doubtful))
perform_all-Follows_example = perform_all-Follows calls doubtful
