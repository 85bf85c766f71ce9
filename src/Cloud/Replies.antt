-- ===== src/Cloud/Replies.antt =====
-- What a reply of the model's endpoint (internal/gcp/vertex.go) has to be for the settler
-- (internal/model/settle.go) to take it.
use ai_k8s.Prelude.{◌≡◌, String, false, List, ◌∷◌, Eq-nat, Eq-string, ok, All}
use ai_k8s.Platform.{Platform}
use ai_k8s.Model.Prompt.{Params, Prompt, Reply}
use ai_k8s.Cloud.Vertex.{Candidate, GenerateResponse, Response, Endpoint, reply_of}

-- An answer whose first candidate stopped by itself and calls no function.
pub record IsPlain (out : GenerateResponse) : Type 0 where
  pub first : Candidate
  pub others : List Candidate
  pub candidates : out.candidates ≡ first ∷ others
  pub finished : first.finish_reason ≡ "STOP"
  pub calls_nothing : All (λ p. p.function_call ≡ false) first.parts

module _ (P : Platform) where
  -- Where the endpoint's answer became a reply.
  record IsAnswered (endpoint : Endpoint P.Float) (reply : Reply) : Type 0 where
    body : String
    out : GenerateResponse
    decoded : endpoint.decode body ≡ ok out
    same : reply_of out ≡ reply

  -- A call that came back with a reply.
  pub record IsCall (endpoint : Endpoint P.Float) (p : Prompt) (params : Params P) (reply : Reply)
      : Type 0 where
    pub request : String
    pub response : Response
    pub posted : endpoint.post request ≡ ok response
    pub status : response.status ≡ 200
    pub body : String
    pub out : GenerateResponse
    pub decoded : endpoint.decode body ≡ ok out
    pub same : reply_of out ≡ reply
