-- ===== src/Cloud/Vertex.antt =====
-- internal/gcp/vertex.go: one generateContent call. The transport and encoding/json are parameters.
use Prim.Native.String.{slice, len}
use mathlib.Core.List.{[]}
use ai_k8s.Prelude.{
  ◌<>◌, ℕ, suc, ◌+◌, String, Bool, List, ◌∷◌, if◌then◌else◌, ltb, ◌==◌, Eq-nat, Eq-string, Result,
  ok, err, failed, wrap,
}
use ai_k8s.Text.Format.{decimal}
use ai_k8s.Platform.{Platform}
use ai_k8s.Model.Prompt.{Params, Prompt, Reply}

-- A part of an answer; `function_call` is whether it carries one.
pub record Part : Type 0 where
  pub text : String
  pub function_call : Bool

pub record Candidate : Type 0 where
  pub parts : List Part
  pub finish_reason : String

-- `generateResponse`
pub record GenerateResponse : Type 0 where
  pub candidates : List Candidate
  pub prompt_token_count : ℕ
  pub candidates_token_count : ℕ
  pub thoughts_token_count : ℕ
  pub model_version : String

-- `generateRequest`, with its one content and its generation config.
pub record GenerateRequest (Float : Type 0) : Type 0 where
  pub system_text : String
  pub user_role : String
  pub user_text : String
  pub temperature : Float
  pub max_output_tokens : ℕ
  pub response_mime_type : String
  pub response_schema : String
  pub thinking_budget : ℕ

-- An HTTP answer: its status, and its body or the error that reading it meets.
pub record Response : Type 0 where
  pub status : ℕ
  pub body : Result String

-- The client with its timeout, and the JSON of the request and of the answer.
pub record Endpoint (Float : Type 0) : Type 0 where
  pub encode : GenerateRequest Float → Result String
  pub build_request : String → Result String
  pub post : String → Result Response
  pub decode : String → Result GenerateResponse

-- The endpoint that `NewVertex` names.
unfoldable pub endpoint_of : String → String → String → String
endpoint_of project location model_id =
    "https://"
    <> (location
        <> ("-aiplatform.googleapis.com/v1/projects/"
            <> (project
                <> ("/locations/"
                    <> (location
                        <> ("/publishers/google/models/" <> (model_id <> ":generateContent")))))))

abbrev pub with_part : Part → Reply → Reply
with_part p reply = record reply {
  tool_calls = if p.function_call then suc reply.tool_calls else reply.tool_calls;
  text = reply.text <> p.text;
}

-- The loop over the parts of the first candidate.
unfoldable pub add_parts : List Part → Reply → Reply
add_parts [] reply = reply
add_parts (p ∷ ps) reply = add_parts ps (with_part p reply)

abbrev empty_reply : GenerateResponse → Reply
empty_reply out = record {
  text = "";
  finish_reason = "";
  tool_calls = 0;
  usage = record {
    input_tokens = out.prompt_token_count;
    output_tokens = out.candidates_token_count + out.thoughts_token_count;
    model_version = out.model_version;
  };
}

-- The reply that a decoded answer makes.
unfoldable pub reply_from : List Candidate → Reply → Reply
unfolding add_parts
reply_from [] reply = record reply { finish_reason = "NO_CANDIDATE" }
reply_from (c ∷ cs) reply = add_parts c.parts (record reply { finish_reason = c.finish_reason })

unfoldable pub reply_of : GenerateResponse → Reply
unfolding reply_from
reply_of out = reply_from out.candidates (empty_reply out)

-- `io.LimitReader` and the cut of an error's message, at bytes.
abbrev pub read_at_most : ℕ → String → String
read_at_most n raw = if ltb n (len raw) then slice raw 0 n else raw

module _ (P : Platform) (endpoint : Endpoint P.Float) where
  open endpoint use {encode, build_request, post, decode}

  abbrev pub request_of : Prompt → Params P → GenerateRequest P.Float
  request_of p params = record {
    system_text = p.system;
    user_role = "user";
    user_text = p.user;
    temperature = params.temperature;
    max_output_tokens = params.max_output_tokens;
    response_mime_type = "application/json";
    response_schema = p.schema;
    thinking_budget = params.thinking_budget;
  }

  -- The answer's body, once it is read.
  unfoldable pub read_answer : ℕ → String → Result Reply
  unfolding reply_of
  read_answer status raw =
      if status == 200
      then elim (decode raw) [
        | err why ↦ err (wrap "parse the response" why)
        | ok out ↦ ok (reply_of out)
      ]
      else err (
          failed
            ("generateContent returned " <> (decimal status <> (": " <> read_at_most 300 raw))))

  unfoldable pub answer_of : Result Response → Result Reply
  unfolding read_answer
  answer_of (err why) = err (wrap "generateContent" why)
  answer_of (ok response) = elim (response.body) [
    | err why ↦ err (wrap "read the response" why)
    | ok body ↦ read_answer response.status (read_at_most 1048576 body)
  ]

  -- `Vertex.Generate`
  unfoldable pub generate : Prompt → Params P → Result Reply
  unfolding answer_of
  generate p params = elim (encode (request_of p params)) [
    | err why ↦ err (wrap "encode the request" why)
    | ok body ↦ elim (build_request body) [
      | err why ↦ err (wrap "build the request" why)
      | ok request ↦ answer_of (post request)
    ]
  ]
