-- ===== src/Eval/Derive.antt =====
-- internal/eval/case.go: `derive` and `walk`, a case's changes to a finding of the library.
use mathlib.Core.List.{[]}
use ai_k8s.Prelude.{
  ◌<>◌, String, Bool, true, false, not, ◌&&◌, Option, none, some, List, ◌∷◌, if◌then◌else◌, ◌==◌,
  Eq-string, Result, ok, err, failed, wrap,
}
use ai_k8s.Text.{split, is_some}
use ai_k8s.Text.Format.{quote}
use ai_k8s.Scc.{Json, obj, Fields, end, field}
use ai_k8s.Model.Resources.{json_field}

-- `m[k] = v` and `delete(m, k)` on a decoded object.
unfoldable pub put_field : String → Json → Fields → Fields
put_field k v end = field k v end
put_field k v (field j w fs) =
    let rest = put_field k v fs in if j == k then field j v fs else field j w rest

unfoldable pub drop_field : String → Fields → Fields
drop_field k end = end
drop_field k (field j w fs) = let rest = drop_field k fs in if j == k then rest else field j w rest

-- `v.(map[string]any)`
abbrev pub object_in : Option Json → Option Fields
object_in (some (obj fields)) = some fields
object_in _ = none

abbrev pub under : String → Fields → Result Fields → Result Fields
under k root (ok next) = ok (put_field k (obj next) root)
under k root (err why) = err why

module _ (path : String) (apply : Fields → String → Fields) (create : Bool) where
  -- The last key of a path.
  unfoldable pub walk_last : Fields → String → Result Fields
  walk_last cur last =
      if not (is_some (json_field last cur)) && not create
      then err (
          failed
            ("path " <> (quote path <> " is not in the finding, so deleting it tests nothing")))
      else ok (apply cur last)

  -- `walk` from an object on, by the keys that are left; strings.Split gives one key at least.
  unfoldable pub walk_keys : Fields → List String → Result Fields
  unfolding walk_last put_field
  walk_keys cur [] = ok cur
  walk_keys cur (last ∷ []) = walk_last cur last
  walk_keys cur (k ∷ next ∷ keys) = elim (object_in (json_field k cur)) [
    | some child ↦ under k cur (walk_keys child (next ∷ keys))
    | none ↦
        let made = under k cur (walk_keys end (next ∷ keys)) in
        if create
        then made
        else err (failed ("path " <> (quote path <> (": " <> (quote k <> " is not an object")))))
  ]

-- `walk`
unfoldable pub walk : Fields → String → (Fields → String → Fields) → Bool → Result Fields
unfolding walk_keys split
walk root path apply create = walk_keys path apply create root (split path b'.')

abbrev pub set_to : Json → Fields → String → Fields
set_to v fields k = put_field k v fields

abbrev pub delete_at : Fields → String → Fields
delete_at fields k = drop_field k fields

-- The loop over `set`, in the order in which the map's paths come.
unfoldable pub set_paths : Fields → Fields → Result Fields
unfolding walk put_field
set_paths end root = ok root
set_paths (field path v changes) root = elim (walk root path (set_to v) true) [
  | err why ↦ err why
  | ok next ↦ set_paths changes next
]

-- The loop over `del`.
unfoldable pub delete_paths : List String → Fields → Result Fields
unfolding walk drop_field
delete_paths [] root = ok root
delete_paths (path ∷ paths) root = elim (walk root path delete_at false) [
  | err why ↦ err why
  | ok next ↦ delete_paths paths next
]

-- `derive`, over the decoding of a finding and the encoding of the notification.
unfoldable pub derive {ℓ} :
    {Bytes : Type ℓ}
    → (String → Result Fields)
    → (Json → Result Bytes)
    → String
    → Fields
    → List String
    → Result Bytes
unfolding set_paths delete_paths
derive decode marshal base set del = elim (decode base) [
  | err why ↦ err (wrap "parse the finding" why)
  | ok root ↦ elim (set_paths set root) [
    | err why ↦ err why
    | ok changed ↦ elim (delete_paths del changed) [
      | err why ↦ err why
      | ok left ↦ marshal (obj (field "finding" (obj left) end))
    ]
  ]
]
