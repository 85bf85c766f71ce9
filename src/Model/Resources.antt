-- ===== src/Model/Resources.antt =====
-- internal/model/settle.go: the resources that a finding names, and the entries that apply to them.
use mathlib.Core.List.{[]}
use ai_k8s.Prelude.{
  String, Bool, false, ◌||◌, Option, none, some, List, ◌∷◌, ◌++◌, if◌then◌else◌, ◌==◌, Eq-nat,
  Eq-string,
}
use ai_k8s.Text.{has_prefix}
use ai_k8s.Scc.{Json, str, arr, obj, Items, nil, cons, Fields, end, field}
use ai_k8s.Scc.{Finding}
use ai_k8s.Corpus.Index.{Entry, Index, lookup_entry}
use ai_k8s.Verdict.Record.{Citation}

abbrev pub json_field : String → Fields → Option Json
json_field k end = none
json_field k (field j v fs) = if j == k then some v else json_field k fs

abbrev named_resource : Option Json → List String
named_resource (some (str name)) = if name == "" then [] else name ∷ []
named_resource _ = []

-- The loop over `affectedResources`; an item that is no object with that text is passed over.
unfoldable pub affected_names : Items → List String
affected_names nil = []
affected_names (cons (obj fields) items) =
    named_resource (json_field "gcpResourceName" fields) ++ affected_names items
affected_names (cons _ items) = affected_names items

abbrev affected_in : Option Json → List String
unfolding affected_names
affected_in (some (arr items)) = affected_names items
affected_in _ = []

-- `resourcesOf`
unfoldable pub resources_of : Finding → List String
unfolding affected_names
resources_of f = f.resource_name ∷ affected_in (json_field "affectedResources" f.source_properties)

unfoldable pub any_prefix : String → List String → Bool
any_prefix prefix [] = false
any_prefix prefix (n ∷ names) = has_prefix n prefix || any_prefix prefix names

unfoldable pub applies : List String → List String → Bool
unfolding any_prefix
applies [] names = false
applies (prefix ∷ prefixes) names = any_prefix prefix names || applies prefixes names

abbrev pub applies_to : Option Entry → List String
applies_to none = []
applies_to (some e) = e.applies_to

-- The loops of `anchored`, over the names that the finding gives.
unfoldable pub anchored_from : List Citation → Index → List String → Bool
anchored_from [] idx names = false
anchored_from (c ∷ cites) idx names =
    applies (applies_to (lookup_entry idx c.id)) names || anchored_from cites idx names

-- `anchored`
unfoldable pub anchored : List Citation → Index → Finding → Bool
anchored cites idx f = anchored_from cites idx (resources_of f)
