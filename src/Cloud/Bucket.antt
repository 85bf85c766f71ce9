-- ===== src/Cloud/Bucket.antt =====
-- internal/gcp/storage.go: the errors of the ledger's bucket. What the Cloud Storage client returns is
-- a parameter of each call.
use mathlib.Core.List.{[]}
use ai_k8s.Prelude.{
  ◌<>◌, ℕ, String, Bool, false, Option, none, some, List, ◌∷◌, ◌++◌, if◌then◌else◌, ◌==◌, Eq-nat,
  Result, ok, err, Error, exists, not_found, failed, wrap,
}

-- An error of the client: its text, the status code of a googleapi.Error, and whether it is
-- storage.ErrObjectNotExist.
pub record ApiError : Type 0 where
  pub text : String
  pub code : Option ℕ
  pub no_object : Bool

abbrev wrapped : String → ApiError → Error
wrapped what e = wrap what (failed e.text)

-- `isPreconditionFailed`
unfoldable pub is_precondition_failed : ApiError → Bool
is_precondition_failed e = elim (e.code) [ none ↦ false | some code ↦ code == 412 ]

-- `Bucket.Create`, by the errors of the writer's Write and Close.
unfoldable pub created : String → Option ApiError → Option ApiError → Result (Unit {0})
unfolding is_precondition_failed
created name (some e) close = err (wrapped ("write " <> name) e)
created name none none = ok tt
created name none (some e) =
    if is_precondition_failed e then err exists else err (wrapped ("close " <> name) e)

module _ {Bytes : Type 0} where
  -- `Bucket.Read`, by the errors of NewReader and of io.ReadAll.
  unfoldable pub read_object : String → Option ApiError → Option ApiError → Bytes → Result Bytes
  read_object name (some e) whole body =
      if e.no_object then err not_found else err (wrapped ("open " <> name) e)
  read_object name none (some e) body = err (wrapped ("read " <> name) e)
  read_object name none none body = ok body

-- One answer of the iterator over the objects: a name, or an error; the list ends as Done.
pub data Listed : Type 0 where
  name : String → Listed
  broken : ApiError → Listed

-- The loop of `Bucket.List`.
unfoldable pub list_objects : String → List Listed → List String → Result (List String)
list_objects prefix [] names = ok names
list_objects prefix (broken e ∷ more) names = err (wrapped ("list " <> prefix) e)
list_objects prefix (name n ∷ more) names = list_objects prefix more (names ++ (n ∷ []))
