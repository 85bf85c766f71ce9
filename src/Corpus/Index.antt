-- ===== src/Corpus/Index.antt =====
-- internal/corpus: the ids (id.go), the index (index.go) and its resolution (resolve.go).
use mathlib.Core.Option
use mathlib.Core.List.{[]}
use ai_k8s.Prelude.{
  ℕ, ◌<>◌, String, Bool, false, ◌||◌, Option, none, some, List, ◌∷◌, ◌++◌, if◌then◌else◌, is_empty,
  leb, ◌==◌, Eq-nat, Eq-string, Result, ok, err, failed, ℤ, pos, negsuc,
}
use ai_k8s.Text.{split}
use ai_k8s.Text.Format.{decimal, quote, atoi}
use ai_k8s.Scc.{blank}

-- A typed citation.
abbrev pub EntryId : Type 0
EntryId = String

pub data Kind : Type 0 where
  checkov threat decision control : Kind

abbrev pub kind_text : Kind → String
kind_text checkov = "checkov"
kind_text threat = "threat"
kind_text decision = "decision"
kind_text control = "control"

-- `CheckovID`, `ThreatID`, `DecisionID` and `ControlID`.
unfoldable pub checkov_id : String → String → EntryId
checkov_id check address = "checkov:" <> (check <> (":" <> address))

unfoldable pub threat_id : ℕ → EntryId
unfolding decimal
threat_id n = "threat:" <> decimal n

unfoldable pub decision_id : String → EntryId
decision_id anchor = "decision:" <> anchor

unfoldable pub control_id : String → EntryId
control_id slug = "control:" <> slug

abbrev pub is_positive : Option ℤ → Bool
is_positive none = false
is_positive (some (pos n)) = leb 1 n
is_positive (some (negsuc n)) = false

-- The cases of `ParseID`, on the parts that `strings.Split(id, ":")` gives.
unfoldable pub parse_parts : EntryId → List String → Result Kind
unfolding atoi
parse_parts id [] = err (failed ("id " <> (quote id <> " has no known kind")))
parse_parts id (kind ∷ rest) =
    if kind == "checkov"
    then elim rest [
      | [] ↦ err (failed ("checkov id " <> (quote id <> " wants check and address")))
      | check ∷ more ↦ elim more [
        | [] ↦ err (failed ("checkov id " <> (quote id <> " wants check and address")))
        | address ∷ others ↦
            if is_empty others
            then (if check == "" || address == ""
                then err (failed ("checkov id " <> (quote id <> " has an empty check or address")))
                else ok checkov)
            else err (failed ("checkov id " <> (quote id <> " wants check and address")))
      ]
    ]
    else if kind == "threat"
    then elim rest [
      | [] ↦ err (failed ("threat id " <> (quote id <> " wants a finding number")))
      | number ∷ others ↦
          if is_empty others
          then (if is_positive (atoi number)
              then ok threat
              else err (failed ("threat id " <> (quote id <> " wants a positive finding number"))))
          else err (failed ("threat id " <> (quote id <> " wants a finding number")))
    ]
    else if kind == "decision" || kind == "control"
    then elim rest [
      | [] ↦ err (failed (kind <> (" id " <> (quote id <> " wants a non-empty name"))))
      | name ∷ others ↦
          if is_empty others
          then (if name == ""
              then err (failed (kind <> (" id " <> (quote id <> " wants a non-empty name"))))
              else ok (if kind == "decision" then decision else control))
          else err (failed (kind <> (" id " <> (quote id <> " wants a non-empty name"))))
    ]
    else err (failed ("id " <> (quote id <> " has no known kind")))

unfoldable pub parse_id : EntryId → Result Kind
unfolding parse_parts split
parse_id id = parse_parts id (split id b':')

pub record Entry : Type 0 where
  pub id : EntryId
  pub kind : Kind
  pub summary : String
  pub source : String
  pub applies_to : List String

pub record Pairing : Type 0 where
  pub resource : String
  pub cite : List EntryId
  pub why : String

-- The two maps are association lists; a key stands in each at most once.
pub record Index : Type 0 where
  pub entries : List (EntryId × Entry)
  pub mapping : List (String × List Pairing)
  pub skipped_decisions : List String

abbrev pub new_index : Index
new_index = record { entries = []; mapping = []; skipped_decisions = [] }

module _ {ℓ} {Held : Type ℓ} where
  -- The read of a Go map, `found` included.
  unfoldable pub lookup : String → List (String × Held) → Option Held
  lookup name [] = none
  lookup name ((here, held) ∷ rest) = if here == name then some held else lookup name rest

  -- The write of a Go map: it stands where the key stood, or at the end.
  unfoldable pub insert : String → Held → List (String × Held) → List (String × Held)
  insert name new [] = (name, new) ∷ []
  insert name new ((here, held) ∷ rest) =
      let later = insert name new rest in
      if here == name then (name, new) ∷ rest else (here, held) ∷ later

-- `Index.Lookup`
unfoldable pub lookup_entry : Index → EntryId → Option Entry
unfolding lookup
lookup_entry idx id = lookup id idx.entries

-- `Index.Add`
unfoldable pub add : Index → Entry → Result Index
add idx e = elim (parse_id e.id) [
  | err why ↦ err why
  | ok kind ↦
      if blank e.summary
      then err (failed ("corpus entry " <> (quote e.id <> " has no summary")))
      else elim (lookup_entry idx e.id) [
        | some seen ↦ err (failed ("corpus id collision on " <> quote e.id))
        | none ↦ ok (record idx { entries = insert e.id (record e { kind = kind }) idx.entries })
      ]
]

unfoldable pub resolve_cites : Index → List EntryId → List Entry
resolve_cites idx [] = []
resolve_cites idx (id ∷ ids) = elim (lookup_entry idx id) [
  | none ↦ resolve_cites idx ids
  | some e ↦ e ∷ resolve_cites idx ids
]

unfoldable pub resolve_pairings : Index → String → List Pairing → List Entry
resolve_pairings idx resource [] = []
resolve_pairings idx resource (p ∷ ps) =
    let rest = resolve_pairings idx resource ps in
    if p.resource == resource then resolve_cites idx p.cite ++ rest else rest

-- `Index.Resolve`; a category that the mapping lacks has no pairings.
unfoldable pub resolve : Index → String → String → List Entry
resolve idx category resource =
    resolve_pairings idx resource (Option.get_or (lookup category idx.mapping) [])
