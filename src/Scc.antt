-- ===== src/Scc.antt =====
-- internal/scc/finding.go: the finding notification, its required fields and its key.
pub mod Key
pub mod Segments
pub mod Required
use Prim.Native.String.{[]}
use mathlib.Core.List
use mathlib.Core.Option
use ai_k8s.Prelude.{
  ℕ, ◌<>◌, String, Bool, true, false, not, Option, none, some, List, ◌∷◌, if◌then◌else◌, is_empty,
  ◌==◌, Eq-string, Result, ok, err, Error, failed, wrap,
}
use ai_k8s.Text.{trim_space, join, equal_fold}
use ai_k8s.Text.Format.{hex}
use ai_k8s.Scc.Key.{path_safe}

-- A decoded JSON value, encoding/json's `any`.
mutual
  pub data Json : Type 0 where
    null : Json
    bool : Bool → Json
    num str : String → Json
    arr : Items → Json
    obj : Fields → Json

  pub data Items : Type 0 where
    nil : Items
    cons : Json → Items → Items

  pub data Fields : Type 0 where
    end : Fields
    field : String → Json → Fields → Fields

pub record Finding : Type 0 where
  pub name : String
  pub canonical_name : String
  pub parent : String
  pub parent_display_name : String
  pub category : String
  pub resource_name : String
  pub state : String
  pub severity : String
  pub finding_class : String
  pub event_time : String
  pub create_time : String
  pub description : String
  pub external_uri : String
  pub mute : String
  pub source_properties : Fields

pub record Envelope : Type 0 where
  pub notification_config_name : String
  pub finding : Finding
  pub resource : Fields
  pub digest : String

abbrev pub severity_unspecified : String
severity_unspecified = "SEVERITY_UNSPECIFIED"

-- `strings.TrimSpace(s) == ""`
unfoldable pub blank : String → Bool
unfolding trim_space
blank s = trim_space s == ""

-- The names of the fields whose values are blank.
unfoldable pub missing_of : List (String × String) → List String
unfolding blank
missing_of List.[] = List.[]
missing_of ((name, value) ∷ rest) = if blank value then name ∷ missing_of rest else missing_of rest

abbrev pub required : Finding → List (String × String)
required f =
    ("canonicalName", f.canonical_name)
    ∷ ("category", f.category)
    ∷ ("resourceName", f.resource_name)
    ∷ ("state", f.state)
    ∷ ("eventTime", f.event_time)
    ∷ ("findingClass", f.finding_class)
    ∷ List.[]

-- The defaults and checks of `Parse`, on a decoded envelope and its digest.
unfoldable pub check_envelope : Envelope → String → Option Envelope × Option Error
unfolding missing_of blank
check_envelope env digest =
    let f = env.finding in
    let severity = if blank f.severity then severity_unspecified else f.severity in
    let env' = record env { finding = record f { severity = severity }; digest = digest } in
    let missing = missing_of (required f) in
    if is_empty missing
    then (some env', none)
    else (some env', some (failed ("finding is missing required fields: " <> join missing ", ")))

-- `Parse` over what it takes from encoding/json and crypto/sha256: decoding a body into an
-- envelope, re-encoding it canonically, and the bytes of its SHA-256 sum.
module _ {Bytes : Type 0} (unmarshal : Bytes → Result Envelope)
    (canonicalize : Bytes → Result Bytes) (sum_of : Bytes → List ℕ) where
  unfoldable pub digest_of : Bytes → Result String
  digest_of body = elim (canonicalize body) [
    | err e ↦ err (wrap "canonicalize finding" e)
    | ok encoded ↦ ok ("sha256:" <> hex (sum_of encoded))
  ]

  unfoldable pub parse : Bytes → Option Envelope × Option Error
  unfolding digest_of check_envelope
  parse body = elim (unmarshal body) [
    | err e ↦ (none, some (wrap "parse finding notification" e))
    | ok env ↦ elim (digest_of body) [
      | err e ↦ (none, some e)
      | ok digest ↦ check_envelope env digest
    ]
  ]

-- `Finding.Key`
unfoldable pub key : Finding → String
unfolding path_safe
key f = join (path_safe f.canonical_name ∷ path_safe f.event_time ∷ path_safe f.state ∷ List.[]) "/"

unfoldable pub is_vulnerability : String → Bool
unfolding equal_fold
is_vulnerability class = equal_fold class "VULNERABILITY"

unfoldable pub in_scope : String → Bool
unfolding is_vulnerability
in_scope class = not (is_vulnerability class)
