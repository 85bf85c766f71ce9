-- ===== src/Eval/Paths.antt =====
-- internal/eval/case.go: what a walk along a path changes.
use mathlib.Core.List.{[]}
use ai_k8s.Prelude.{
  ◌≡◌, ◌≢◌, refl, sym, ap, ◌∙◌, inl, inr, String, false, Option, none, some, List, ◌∷◌,
  if◌then◌else◌, ◌==◌, Eq-string, eq_iff, ok, Option-cases, Result-cases, ok-injective, arith,
}
use ai_k8s.Scc.{Json, obj, Fields, end, field}
use ai_k8s.Model.Resources.{json_field}
use ai_k8s.Eval.Derive.{put_field, drop_field, object_in, walk_last, walk_keys, delete_at}

-- What stands at the end of the keys, through objects only.
abbrev pub value_at : Fields → List String → Option Json
value_at fields [] = none
value_at fields (k ∷ []) = json_field k fields
value_at fields (k ∷ next ∷ keys) = elim (object_in (json_field k fields)) [
  | none ↦ none
  | some child ↦ value_at child (next ∷ keys)
]

json_field-put :
    (k j : String) (v : Json) (fs : Fields)
    → json_field j (put_field k v fs) ≡ (if k == j then some v else json_field j fs)
unfolding put_field
json_field-put k j v end = refl
json_field-put k j v (field i w fs) =
    let below = json_field-put k j v fs in ground (arith, below, eq_iff i k, eq_iff i j, eq_iff k j)

json_field-drop : (k : String) (fs : Fields) → json_field k (drop_field k fs) ≡ none
unfolding drop_field
json_field-drop k end = refl
json_field-drop k (field i w fs) = let below = json_field-drop k fs in ground (arith, below)

json_field-put_self :
    (k : String) (v : Json) (fs : Fields) → json_field k (put_field k v fs) ≡ some v
json_field-put_self k v fs = json_field-put k k v fs ∙ rw ((eq_iff k k).1 refl) refl

-- What a deletion finds at the path's end, and leaves there: where it succeeds, the path led to
-- something, and leads to nothing then.
pub walk_keys-delete :
    (path : String) (k : String) (keys : List String) (root next : Fields)
    → walk_keys path delete_at false root (k ∷ keys) ≡ ok next
    → (value_at root (k ∷ keys) ≢ none) × (value_at next (k ∷ keys) ≡ none)
unfolding walk_keys walk_last
walk_keys-delete path k [] root next h = elim (Option-cases (json_field k root)) [
  | inl missing ↦ cc (rw (walk_keys, walk_last, missing) at h)
  | inr (v, there) ↦ (
    λ e. cc (there, e),
    ap (json_field k) (sym (ok-injective (rw (walk_keys, walk_last, there) at h)))
        ∙ json_field-drop k root,
  )
]
walk_keys-delete path k (k' ∷ keys) root next h =
    elim (Option-cases (object_in (json_field k root))) [
      | inl missing ↦ cc (rw (walk_keys, missing) at h)
      | inr (old, there) ↦ elim (Result-cases (walk_keys path delete_at false old (k' ∷ keys))) [
        | inr (why, bad) ↦ cc (rw (walk_keys, there, bad) at h)
        | inl (child, done) ↦
            let (found, gone) = walk_keys-delete path k' keys old child done in
            let same : put_field k (obj child) root ≡ next =
              ok-injective (rw (walk_keys, there, done) at h) in
            (
              rw (value_at, there) found,
              rw (← same) (rw (value_at, json_field-put_self k (obj child) root) gone),
            )
      ]
    ]
