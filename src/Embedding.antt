-- ===== src/Embedding.antt =====
-- src/services/embedding.rs: `EmbeddingClient`.
use personal_knowledge_os.Prelude.{
  ℕ, Bool, ◌&&◌, List, [], ◌∷◌, ◌++◌, Option, none, some, is_some, length, ◌==◌, if◌then◌else◌,
}
use personal_knowledge_os.Text.{Text, codes}
use personal_knowledge_os.Values.{Vector}
use personal_knowledge_os.AppError.{Result, ok, err, upstream}
use personal_knowledge_os.Config.{Config}
use personal_knowledge_os.Db.Action.{Action, ◌>>=◌, pure, lift_result}
use personal_knowledge_os.Services.{
  Services, Sent, not_sent, answered, decoded, undecodable, is_success, call, trim_end_slashes,
  EmbeddingRequest,
}

pub record EmbeddingClient : Type 0 where
  pub base_url : Option Text
  pub api_key : Option Text
  pub model : Text
  pub dimensions : ℕ

-- `new`, whose HTTP client cannot fail to build with these options
unfoldable pub new : Config → EmbeddingClient
new config = record {
  base_url = config.openai_base_url;
  api_key = config.openai_api_key;
  model = config.embedding_model;
  dimensions = config.embedding_dimensions;
}

-- `enabled`
unfoldable pub enabled : EmbeddingClient → Bool
enabled client = is_some client.base_url && is_some client.api_key

-- the request of `embed`
unfoldable pub embedding_request : EmbeddingClient → Text → Text → Text → EmbeddingRequest
unfolding trim_end_slashes
embedding_request client base_url api_key input = record {
  url = trim_end_slashes base_url ++ codes "/embeddings";
  bearer = api_key;
  model = client.model;
  input = input;
  dimensions = client.dimensions;
}

-- the data of the answer
unfoldable pub data_of : Sent (List Vector) → Result (List Vector)
unfolding is_success
data_of (not_sent text) = err (upstream text)
data_of (answered response) =
    if is_success response.status
    then elim response.body [
      | decoded vectors ↦ ok vectors
      | undecodable text ↦ err (upstream text)
    ]
    else err (upstream (codes "embedding provider returned " ++ response.status_text))

-- the first vector, of the dimension that was asked for
unfoldable pub first_vector : Services → ℕ → List Vector → Result Vector
first_vector services dimensions [] =
    err (upstream (codes "embedding response contained no vectors"))
first_vector services dimensions (vector ∷ _) =
    if length vector == dimensions
    then ok vector
    else err (
        upstream (
          codes "embedding dimension mismatch: expected "
          ++ services.decimal dimensions
          ++ codes ", got "
          ++ services.decimal (length vector)))

-- what `embed` makes of the answer
unfoldable pub read_embedding : Services → ℕ → Sent (List Vector) → Result (Option Vector)
unfolding data_of first_vector
read_embedding services dimensions sent = elim (data_of sent) [
  | err e ↦ err e
  | ok vectors ↦ elim (first_vector services dimensions vectors) [
    | err e ↦ err e
    | ok vector ↦ ok (some vector)
  ]
]

-- `embed`, with its provider
unfoldable pub embed_with :
    Services → EmbeddingClient → Text → Option Text → Option Text → Action (Option Vector)
unfolding embedding_request read_embedding
embed_with services client input (some base_url) (some api_key) = do
  sent ← call (λ tick. services.embeddings tick (embedding_request client base_url api_key input))
  lift_result (read_embedding services client.dimensions sent)
embed_with services client input _ _ = pure none

-- `embed`
unfoldable pub embed : Services → EmbeddingClient → Text → Action (Option Vector)
unfolding embed_with
embed services client input = embed_with services client input client.base_url client.api_key
