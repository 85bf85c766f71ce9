-- ===== src/Platform.antt =====
-- What the program takes from outside its own code: encoding/json, crypto/sha256 and the
-- floating-point numbers. A value of `Platform` is any implementation; nothing is assumed of it
-- but what `IsLawful` names, where a theorem asks for that.
use ai_k8s.Prelude.{ℕ, String, Bool, List, Result, ok, ◌≡◌}
use ai_k8s.Scc.{Envelope, Fields}
use ai_k8s.Verdict.Record.{VerdictRecord}
use ai_k8s.Corpus.Index.{EntryId, Kind}

-- `reservation` of internal/model/spend.go.
pub record Reservation (Float : Type 0) : Type 0 where
  pub usd : Float
  pub key : String
  pub at : String

-- `answer` of internal/model/settle.go.
pub record Answer : Type 0 where
  pub verdict : String
  pub citations : List String
  pub reasoning : String
  pub missing_evidence : List String
  pub recommended_action : String
  pub confidence : String

-- `findingView` and `entryView` of internal/model/model.go.
pub record FindingView : Type 0 where
  pub category : String
  pub resource_name : String
  pub finding_class : String
  pub severity : String
  pub state : String
  pub event_time : String
  pub description : String
  pub external_uri : String
  pub parent_display_name : String
  pub source_properties : Fields

pub record EntryView : Type 0 where
  pub id : EntryId
  pub kind : Kind
  pub summary : String

pub record Platform : Type 1 where
  -- Bodies of messages and objects, and their JSON.
  pub Bytes : Type 0
  pub Float : Type 0
  pub unmarshal_envelope : Bytes → Result Envelope
  pub canonicalize : Bytes → Result Bytes
  pub marshal_record : VerdictRecord → Bytes
  pub unmarshal_record : Bytes → Result VerdictRecord
  pub marshal_reservation : Reservation Float → Result Bytes
  pub unmarshal_reservation : Bytes → Result (Reservation Float)
  pub marshal_finding : FindingView → Result String
  pub marshal_entries : List EntryView → Result String
  pub decode_answer : String → Result Answer
  -- The bytes of a SHA-256 sum: of a body, of a text, and the first eight of a text's.
  pub sum_of : Bytes → List ℕ
  pub sum_of_text : String → List ℕ
  pub sum_prefix : String → List ℕ
  -- float64: `a + b`, `a * b`, `a / 1e6`, `a > b`, and the formats %.nf, %g and 'f' with -1.
  pub of_ℕ : ℕ → Float
  pub add_float : Float → Float → Float
  pub mul_float : Float → Float → Float
  pub per_million : Float → Float
  pub gt_float : Float → Float → Bool
  pub format_fixed : ℕ → Float → String
  pub format_general : Float → String
  pub format_shortest : Float → String

-- Decoding takes back what encoding wrote, for the two bodies that the program reads again.
pub record IsLawful (P : Platform) : Type 0 where
  pub unmarshal-record : (r : VerdictRecord) → P.unmarshal_record (P.marshal_record r) ≡ ok r
  pub unmarshal-reservation :
      (r : Reservation P.Float) (body : P.Bytes)
      → P.marshal_reservation r ≡ ok body
      → P.unmarshal_reservation body ≡ ok r
